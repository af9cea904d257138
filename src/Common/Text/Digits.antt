-- ===== src/Common/Text/Digits.antt =====
-- Printing a whole number.
use Prim.Native.Nat.{ℕ, zero, suc, ◌+◌, ◌-◌, ◌*◌, ◌/◌, ◌%◌, ◌<◌}
use mathlib.Core.Path.{◌≡◌, refl, ap, sym, ◌∙◌}
use mathlib.Core.Logic.{inl, inr}
use mathlib.Core.Bool.{false, ◌&&◌}
use native.Mathlib.Omega.{arith}
use mathlib.Core.List.{[], ◌∷◌, ◌++◌}
use interiors_api_client.Common.Tests.{leb, if◌then◌else◌, Bool-cases}
use interiors_api_client.Common.Text.{Text, digits_onto, print}

pub digits_onto-append :
    (fuel n : ℕ) (s t : Text) → digits_onto fuel n s ++ t ≡ digits_onto fuel n (s ++ t)
unfolding digits_onto
digits_onto-append zero n s t = refl
digits_onto-append (suc f) n s t = elim (Bool-cases (leb n 9)) [
  | inl e ↦ rw e refl
  | inr e ↦ rw e (digits_onto-append f (n / 10) ((48 + n % 10) ∷ s) t)
]

pub print-append : (n : ℕ) (t : Text) → print n ++ t ≡ digits_onto (suc n) n t
unfolding print
print-append n t = digits_onto-append (suc n) n [] t

-- The number that the leading digits of a text stand for, after the digits of `acc`, and the rest.
read : ℕ → Text → ℕ × Text
read acc [] = (acc, [])
read acc (c ∷ s) =
    let more = read (acc * 10 + (c - 48)) s in if leb 48 c && leb c 57 then more else (acc, c ∷ s)

read_digit : (acc d : ℕ) (s : Text) → d < 10 → read acc ((48 + d) ∷ s) ≡ read (acc * 10 + d) s
unfolding read
read_digit acc d s h = ground arith

read_stop :
    (acc c : ℕ) (s : Text) → (leb 48 c && leb c 57) ≡ false → read acc (c ∷ s) ≡ (acc, c ∷ s)
unfolding read
read_stop acc c s e = rw e refl

read-digits_onto : (fuel n : ℕ) (s : Text) → n < fuel → read 0 (digits_onto fuel n s) ≡ read n s
unfolding digits_onto
read-digits_onto zero n s h = elim h [ ]
read-digits_onto (suc f) n s h = elim (Bool-cases (leb n 9)) [
  | inl e ↦ rw e (read_digit 0 n s (ground arith) ∙ ap (λ k. read k s) (omega arith))
  | inr e ↦ rw e (
      read-digits_onto f (n / 10) ((48 + n % 10) ∷ s) (ground arith)
      ∙ read_digit (n / 10) (n % 10) s (omega arith)
      ∙ ap (λ k. read k s) (omega arith))
]

read-print : (n : ℕ) (s : Text) → read 0 (print n ++ s) ≡ read n s
read-print n s = ap (read 0) (print-append n s) ∙ read-digits_onto (suc n) n s (omega arith)

-- Two numbers with the same digits before something that is no digit are the same.
pub print-append_inj :
    (a b c : ℕ) (s t : Text)
    → print a ++ (c ∷ s) ≡ print b ++ (c ∷ t)
    → (leb 48 c && leb c 57) ≡ false
    → (a ≡ b) × (s ≡ t)
print-append_inj a b c s t h e =
    let same = sym (read-print a (c ∷ s)) ∙ ap (read 0) h ∙ read-print b (c ∷ t) in
    let pair = sym (read_stop a c s e) ∙ same ∙ read_stop b c t e in
    (ap (λ (p : ℕ × Text). p.0) pair, ground (arith, pair))

pub print_inj : (a b : ℕ) → print a ≡ print b → a ≡ b
unfolding read
print_inj a b h =
    ap (λ (p : ℕ × Text). p.0)
      (sym (read-print a []) ∙ ap (λ t. read 0 (t ++ [])) h ∙ read-print b [])

-- What follows the digits of a number is found again.
pub print-append-eq_rest :
    (n c d : ℕ) (s t : Text)
    → print n ++ (c ∷ s) ≡ d ∷ t
    → (leb 48 c && leb c 57) ≡ false
    → (leb 48 d && leb d 57) ≡ false
    → c ≡ d
print-append-eq_rest n c d s t h e f =
    let pair =
      sym (read_stop n c s e) ∙ sym (read-print n (c ∷ s)) ∙ ap (read 0) h ∙ read_stop 0 d t f in
    ground (arith, pair)
