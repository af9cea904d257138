-- ===== src/Notifications/Address.antt =====
-- The address check of `ValidateStage` against the pattern `^[^\s@]+@[^\s@]+\.[^\s@]+$`.
use interiors_api_client.Common.{
  ℕ, ◌≡◌, refl, ap, subst, ◌≢◌, ◌↔◌, ◌⊎◌, inl, inr, Bool, true, false, not, ◌&&◌, ◌||◌, Option,
  none, some, [], ◌∷◌, ◌++◌, arith, ◌==◌, Bool-cases, is_empty, All,
}
use interiors_api_client.Common.Text.{Text, is_space}
use interiors_api_client.Notifications.Stages.Validate.{
  after_at, all_plain, has_dot_inside, is_domain, domain_fits, is_valid_email,
}

-- `[^\s@]`
abbrev pub IsPlain : ℕ → Type 0
IsPlain c = (is_space c ≡ false) × (c ≢ b'@')

-- `[^\s@]+`
abbrev pub IsWord : Text → Type 0
IsWord s = (s ≢ []) × All IsPlain s

-- The pattern, with its three words.
abbrev pub IsAddress : Text → Type 0
IsAddress s =
    (l h t : Text) × (s ≡ l ++ (b'@' ∷ (h ++ (b'.' ∷ t)))) × IsWord l × IsWord h × IsWord t

cons-ne-nil : {c : ℕ} {s : Text} → c ∷ s ≢ []
cons-ne-nil e = cc

dot_needs_more : (c : ℕ) (s : Text) → (c == b'.') && not (is_empty s) ≡ true → s ≢ []
dot_needs_more c [] h = ground arith
dot_needs_more c (d ∷ s) h = cons-ne-nil

or-true : (b : Bool) → b || true ≡ true
or-true true = refl
or-true false = refl

after_at-eq-some :
    (seen : Bool) (s d : Text)
    → after_at seen s ≡ some d
    → (l : Text) × (s ≡ l ++ (b'@' ∷ d)) × All IsPlain l × (seen ≡ false → l ≢ [])
unfolding after_at
after_at-eq-some seen [] d e = cc
after_at-eq-some seen (c ∷ s) d e = elim (Bool-cases (c == b'@')) [
  | inl at ↦ ([], ground arith, tt, λ f _. absurd (ground arith))
  | inr other ↦ elim (Bool-cases (is_space c)) [
    | inl space ↦ absurd (ground arith)
    | inr plain ↦
        let (l, split, words, _) = after_at-eq-some true s d (ground arith) in
        (
          c ∷ l,
          ap (λ (x : Text). c ∷ x) split,
          ((plain, λ n. ground arith), words),
          λ _ n. absurd (cons-ne-nil n),
        )
  ]
]

after_at-word :
    (seen : Bool) (l d : Text)
    → All IsPlain l
    → (seen ≡ true) ⊎ (l ≢ [])
    → after_at seen (l ++ (b'@' ∷ d)) ≡ some d
unfolding after_at
after_at-word seen [] d p (inl e) = rw e refl
after_at-word seen [] d p (inr ne) = absurd (ne refl)
after_at-word seen (c ∷ l) d ((plain, ne), ps) h =
    ground (arith, after_at-word true l d ps (inl refl))

all_plain_iff : (s : Text) → (all_plain s ≡ true) ↔ All IsPlain s
unfolding all_plain
all_plain_iff [] = ground arith
all_plain_iff (c ∷ s) = ground (arith, all_plain_iff s)

has_dot_inside-eq-true :
    (s : Text) → has_dot_inside s ≡ true → (h t : Text) × (s ≡ h ++ (b'.' ∷ t)) × (t ≢ [])
unfolding has_dot_inside
has_dot_inside-eq-true [] e = cc
has_dot_inside-eq-true (c ∷ s) e = elim (Bool-cases ((c == b'.') && not (is_empty s))) [
  | inl here ↦ ([], s, ground arith, dot_needs_more c s here)
  | inr later ↦
      let (h, t, split, more) = has_dot_inside-eq-true s (rw (later) at e) in
      (c ∷ h, t, ap (λ (x : Text). c ∷ x) split, more)
]

has_dot_inside-append : (h t : Text) → t ≢ [] → has_dot_inside (h ++ (b'.' ∷ t)) ≡ true
unfolding has_dot_inside
has_dot_inside-append [] [] ne = absurd (ne refl)
has_dot_inside-append [] (c ∷ t) ne = refl
has_dot_inside-append (c ∷ h) t ne = rw (has_dot_inside-append h t ne) (or-true _)

All-append : (P : ℕ → Type 0) (xs ys : Text) → All P (xs ++ ys) ↔ (All P xs × All P ys)
All-append P [] ys = (λ h. (tt, h), λ h. h.1)
All-append P (x ∷ xs) ys = (
  λ h. let (a, b) = (All-append P xs ys).0 h.1 in ((h.0, a), b),
  λ h. (h.0.0, (All-append P xs ys).1 (h.0.1, h.1)),
)

dot-IsPlain : IsPlain b'.'
unfolding is_space
dot-IsPlain = (refl, λ e. absurd (omega arith))

domain_fits-eq-true :
    (o : Option Text) → domain_fits o ≡ true → (d : Text) × (o ≡ some d) × (is_domain d ≡ true)
domain_fits-eq-true none e = cc
domain_fits-eq-true (some d) e = (d, refl, e)

and-eq-true : (a b : Bool) → a && b ≡ true → (a ≡ true) × (b ≡ true)
and-eq-true a b h = ground arith

is_domain-words :
    (d : Text) → is_domain d ≡ true → (h t : Text) × (d ≡ h ++ (b'.' ∷ t)) × IsWord h × IsWord t
unfolding is_domain
is_domain-words [] e = cc
is_domain-words (c ∷ s) e =
    let (plain, dot) = and-eq-true _ _ e in
    let (h, t, split, more) = has_dot_inside-eq-true s dot in
    let whole : (c ∷ s) ≡ (c ∷ h) ++ (b'.' ∷ t) = ap (λ (x : Text). c ∷ x) split in
    let parts =
      (All-append IsPlain (c ∷ h) (b'.' ∷ t)).0
        (subst (All IsPlain) whole ((all_plain_iff (c ∷ s)).0 plain)) in
    (c ∷ h, t, whole, (cons-ne-nil, parts.0), (more, parts.1.1))

is_domain-append : (h t : Text) → IsWord h → IsWord t → is_domain (h ++ (b'.' ∷ t)) ≡ true
unfolding is_domain
is_domain-append [] t hw tw = absurd (hw.0 refl)
is_domain-append (c ∷ h) t (ne, plain) (more, plain') =
    let whole = (All-append IsPlain (c ∷ h) (b'.' ∷ t)).1 (plain, (dot-IsPlain, plain')) in
    rw ((all_plain_iff (c ∷ (h ++ (b'.' ∷ t)))).1 whole, has_dot_inside-append h t more) refl

-- An address is accepted exactly when it matches the pattern.
pub is_valid_email-IsAddress : (s : Text) → (is_valid_email s ≡ true) ↔ IsAddress s
unfolding is_valid_email
is_valid_email-IsAddress s = (to, from)
  where
    to : domain_fits (after_at false s) ≡ true → IsAddress s
    to e =
        let (d, found, domain) = domain_fits-eq-true (after_at false s) e in
        let (l, split, plain, ne) = after_at-eq-some false s d found in
        let (h, t, dots, hw, tw) = is_domain-words d domain in
        (l, h, t, rw (← dots) split, (ne refl, plain), hw, tw)

    from : IsAddress s → domain_fits (after_at false s) ≡ true
    from (l, h, t, split, lw, hw, tw) =
        rw (split, after_at-word false l (h ++ (b'.' ∷ t)) lw.1 (inr lw.0))
          (is_domain-append h t hw tw)
