-- ===== src/Quotes/Pricing/RunningFeet.antt =====
-- The running feet that the kitchen strategy reads back from the text of the user interface.
use interiors_api_client.Common.{
  ℕ, zero, suc, ◌+◌, ◌-◌, ◌*◌, ◌/◌, ◌%◌, ◌≤◌, ◌<◌, ◌≡◌, refl, ◌≢◌, inl, inr, true, false, none,
  some, [], ◌∷◌, ◌++◌, ◌∙◌, arith, leb, ◌==◌, Bool-cases, All,
}
use interiors_api_client.Common.Text.{Text, text, trim_start, is_space, lower, digits_onto, print}
use interiors_api_client.Common.Text.Digits.{print-append}
use interiors_api_client.Common.Decimal.{whole}
use interiors_api_client.Quotes.Request.{described}
use interiors_api_client.Quotes.Pricing.Kitchen.{
  is_digit, span_digits, match_number, match_between, find_total, extract_total_running_feet,
}

-- The text does not begin with a digit.
abbrev Stops : Text → Type 0
Stops [] = Unit
Stops (c ∷ s) = is_digit c ≡ false

span_digits-Stops : (v n : ℕ) (t : Text) → Stops t → span_digits v n t ≡ (v, n, t)
unfolding span_digits
span_digits-Stops v n [] h = refl
span_digits-Stops v n (c ∷ t) h = rw h refl

is_digit-add : (d : ℕ) → d ≤ 9 → is_digit (48 + d) ≡ true
is_digit-add d h = ground arith

span_digits_step :
    (v n d w : ℕ) (t : Text)
    → d ≤ 9
    → v * 10 + d ≡ w
    → span_digits v n ((48 + d) ∷ t) ≡ span_digits w (suc n) t
unfolding span_digits
span_digits_step v n d w t h e =
    let same : v * 10 + (48 + d - 48) ≡ w = omega arith in rw (is_digit-add d h, same) refl

-- Reading the digits of a number gives the number back.
span_digits-digits_onto :
    (fuel n : ℕ) (t : Text)
    → n < fuel
    → (k : ℕ) × (span_digits 0 0 (digits_onto fuel n t) ≡ span_digits n (suc k) t)
unfolding digits_onto
span_digits-digits_onto zero n t h = absurd (omega arith)
span_digits-digits_onto (suc f) n t h = elim (Bool-cases (leb n 9)) [
  | inl e ↦ (0, rw e (span_digits_step 0 0 n n t (ground arith) (omega arith)))
  | inr e ↦
      let (k, ih) = span_digits-digits_onto f (n / 10) ((48 + n % 10) ∷ t) (ground arith) in
      (
        suc k,
        rw e (ih ∙ span_digits_step (n / 10) (suc k) (n % 10) n t (omega arith) (omega arith)),
      )
]

digits_onto-head :
    (fuel n : ℕ) (t : Text)
    → n < fuel
    → (d : ℕ) × (s : Text) × (digits_onto fuel n t ≡ (48 + d) ∷ s) × (d ≤ 9)
unfolding digits_onto
digits_onto-head zero n t h = absurd (omega arith)
digits_onto-head (suc f) n t h = elim (Bool-cases (leb n 9)) [
  | inl e ↦ (n, t, rw e refl, ground arith)
  | inr e ↦
      let (d, s, ih, small) = digits_onto-head f (n / 10) ((48 + n % 10) ∷ t) (ground arith) in
      (d, s, rw e ih, small)
]

is_space-digit : (d : ℕ) → d ≤ 9 → is_space (48 + d) ≡ false
unfolding is_space
is_space-digit d h = ground arith

-- A printed number begins with a digit, so no white space is skipped before it.
trim_start-digits_onto :
    (fuel n : ℕ) (t : Text) → n < fuel → trim_start (digits_onto fuel n t) ≡ digits_onto fuel n t
unfolding trim_start
trim_start-digits_onto fuel n t h =
    let (d, s, e, small) = digits_onto-head fuel n t h in rw (e, is_space-digit d small) refl

match_number-print :
    (n : ℕ) (t : Text)
    → match_number (trim_start (print n ++ (b'f' ∷ t))) ≡ some (whole n, b'f' ∷ t)
unfolding match_number
match_number-print n t =
    let (k, e) = span_digits-digits_onto (suc n) n (b'f' ∷ t) (omega arith) in
    rw (print-append n (b'f' ∷ t), trim_start-digits_onto (suc n) n (b'f' ∷ t) (omega arith), e)
      refl

-- The text that the user interface writes for a total.
abbrev pub total_text : ℕ → Text → Text
total_text n rest = text "(Total: " ++ (print n ++ (text "ft)" ++ rest))

match_between-total_text :
    (n : ℕ) (rest : Text)
    → match_between (text "(Total:") (text "ft)") (total_text n rest) ≡ some (whole n)
unfolding match_between is_space
match_between-total_text n rest = rw (match_number-print n (text "t)" ++ rest)) refl

lower-ne : (c : ℕ) → c ≢ b'(' → (lower c == b'(') ≡ false
unfolding lower
lower-ne c ne = ground arith

match_between-miss :
    (c : ℕ) (s : Text) → c ≢ b'(' → match_between (text "(Total:") (text "ft)") (c ∷ s) ≡ none
unfolding match_between
match_between-miss c s ne = rw (lower-ne c ne) refl

find_total-skip : (s t : Text) → All (λ c. c ≢ b'(') s → find_total (s ++ t) ≡ find_total t
unfolding find_total
find_total-skip [] t h = refl
find_total-skip (c ∷ s) t (ne, h) =
    rw (match_between-miss c (s ++ t) ne, find_total) (find_total-skip s t h)

find_total-total_text : (n : ℕ) (rest : Text) → find_total (total_text n rest) ≡ some (whole n)
unfolding find_total
find_total-total_text n rest = rw (match_between-total_text n rest, find_total) refl

-- From a text with a total, `(Total: <n>ft)`, behind segments without a parenthesis, the strategy
-- reads the total, whatever the segments and what follows.
pub extract_total_running_feet-total :
    (before after : Text) (n : ℕ)
    → All (λ c. c ≢ b'(') before
    → extract_total_running_feet (described (before ++ total_text n after)) ≡ whole n
unfolding extract_total_running_feet
extract_total_running_feet-total before after n h =
    rw (find_total-skip before (total_text n after) h ∙ find_total-total_text n after) refl
