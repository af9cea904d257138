-- ===== src/Users/SignIn/Bearer.antt =====
-- The header that carries a token: what the regular expression of `extractBearerToken` accepts.
use interiors_api_client.Common.{
  ◌≡◌, ◌↔◌, refl, ap, ◌∙◌, Bool, true, false, ◌&&◌, Option, none, some, [], ◌∷◌, ◌++◌, inl, inr,
  is_empty, Bool-cases, Option-cases, arith, ◌==◌, ==_iff,
}
use interiors_api_client.Common.Text.{Text, text, trim, trim_start, is_space, lower, to_lower_case}
use interiors_api_client.Common.Exec.{ok}
use interiors_api_client.Users.SignIn.{
  after_word, all_plain, spaced_token, match_bearer, require_token, extract_bearer_token,
}

abbrev all_space : Text → Bool
all_space [] = true
all_space (c ∷ s) = is_space c && all_space s

-- `header` is the word, white space and the token.
pub record IsBearer (header token : Text) : Type 0 where
  pub word : Text
  pub gap : Text
  pub parts : header ≡ word ++ (gap ++ token)
  pub named : to_lower_case word ≡ text "bearer"
  pub spaced : all_space gap ≡ true
  pub apart : is_empty gap ≡ false
  pub given : is_empty token ≡ false
  pub plain : all_plain token ≡ true

after_word-eq-some :
    (w s rest : Text)
    → after_word w s ≡ some rest
    → (word : Text) × (s ≡ word ++ rest) × (to_lower_case word ≡ w)
unfolding after_word to_lower_case
after_word-eq-some [] s rest h = ([], cc, refl)
after_word-eq-some (c ∷ w) [] rest h = cc
after_word-eq-some (c ∷ w) (d ∷ s) rest h = elim (Bool-cases (c == lower d)) [
  | inl e ↦
      let (word, parts, named) = after_word-eq-some w s rest (rw e at h) in
      (d ∷ word, ap (λ t. d ∷ t) parts, ground (arith, ==_iff c (lower d)))
  | inr e ↦ cc
]

after_word-append :
    (w word rest : Text) → to_lower_case word ≡ w → after_word w (word ++ rest) ≡ some rest
unfolding after_word to_lower_case
after_word-append [] [] rest h = refl
after_word-append [] (d ∷ word) rest h = cc
after_word-append (c ∷ w) [] rest h = cc
after_word-append (c ∷ w) (d ∷ word) rest h = ground (arith, after_word-append w word rest)

trim_start-split : (s : Text) → (gap : Text) × (s ≡ gap ++ trim_start s) × (all_space gap ≡ true)
unfolding trim_start
trim_start-split [] = ([], refl, refl)
trim_start-split (c ∷ s) = elim (Bool-cases (is_space c)) [
  | inl e ↦
      let (gap, parts, spaced) = trim_start-split s in
      (c ∷ gap, rw e (ap (λ t. c ∷ t) parts), rw e spaced)
  | inr e ↦ ([], rw e refl, refl)
]

trim_start-append :
    (gap token : Text)
    → all_space gap ≡ true
    → is_empty token ≡ false
    → all_plain token ≡ true
    → trim_start (gap ++ token) ≡ token
unfolding trim_start
trim_start-append [] [] sp e p = refl
trim_start-append [] (c ∷ token) sp e p = ground arith
trim_start-append (c ∷ gap) token sp e p = ground (arith, trim_start-append gap token)

spaced_token-eq-some :
    (rest token : Text)
    → spaced_token rest ≡ some token
    → (gap : Text) × (rest ≡ gap ++ token)
      × (all_space gap ≡ true)
      × (is_empty gap ≡ false)
      × (is_empty token ≡ false)
      × (all_plain token ≡ true)
spaced_token-eq-some [] token h = cc
spaced_token-eq-some (c ∷ s) token h =
    let (gap, parts, spaced) = trim_start-split s in
    let same : (is_space c ≡ true)
        × (is_empty (trim_start s) ≡ false)
        × (all_plain (trim_start s) ≡ true)
        × (trim_start s ≡ token) =
      ground arith in
    (
      c ∷ gap,
      ap (λ t. c ∷ t) (parts ∙ ap (λ t. gap ++ t) same.3),
      ground arith,
      refl,
      ground arith,
      ground arith,
    )

spaced_token-append :
    (gap token : Text)
    → all_space gap ≡ true
    → is_empty gap ≡ false
    → is_empty token ≡ false
    → all_plain token ≡ true
    → spaced_token (gap ++ token) ≡ some token
spaced_token-append [] token sp a g p = cc
spaced_token-append (c ∷ gap) token sp a g p = ground (arith, trim_start-append gap token)

match_bearer-eq-some :
    (header token : Text) → match_bearer header ≡ some token → IsBearer header token
unfolding match_bearer
match_bearer-eq-some header token h = elim (Option-cases (after_word (text "bearer") header)) [
  | inl e ↦ cc
  | inr (rest, e) ↦
      let (word, parts, named) = after_word-eq-some (text "bearer") header rest e in
      let (gap, parts', spaced, apart, given, plain) =
        spaced_token-eq-some rest token (rw e at h) in
      record {
        word = word;
        gap = gap;
        parts = parts ∙ ap (λ t. word ++ t) parts';
        named = named;
        spaced = spaced;
        apart = apart;
        given = given;
        plain = plain;
      }
]

match_bearer-IsBearer :
    (header token : Text) → IsBearer header token → match_bearer header ≡ some token
unfolding match_bearer
match_bearer-IsBearer header token b =
    rw (b.parts, after_word-append (text "bearer") b.word (b.gap ++ token) b.named)
      (spaced_token-append b.gap token b.spaced b.apart b.given b.plain)

require_token-eq-ok : (o : Option Text) (token : Text) → require_token o ≡ ok token → o ≡ some token
require_token-eq-ok none token h = cc
require_token-eq-ok (some t) token h = ground arith

-- A token is taken from the header exactly if the trimmed header is the word `Bearer`, its letters
-- in either case, then white space, and then the token, which is not empty and holds no white space.
pub extract_bearer_token-accepts_iff :
    (authorization token : Text)
    → (extract_bearer_token (some authorization) ≡ ok token) ↔ IsBearer (trim authorization) token
unfolding extract_bearer_token
extract_bearer_token-accepts_iff authorization token = (
  λ h.
      match_bearer-eq-some (trim authorization) token
        (require_token-eq-ok (match_bearer (trim authorization)) token h),
  λ b. rw (match_bearer-IsBearer (trim authorization) token b, b.given) refl,
)
