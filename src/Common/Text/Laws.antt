-- ===== src/Common/Text/Laws.antt =====
-- Laws of the string methods: equality, and that trimming and lower-casing commute and settle.
use interiors_api_client.Common.Tests.{Bool-cases}
use interiors_api_client.Common.Lists.{is_empty}
use Prim.Native.Nat.{ℕ}
use mathlib.Core.Path.{◌≡◌, refl, ap, ◌∙◌}
use mathlib.Core.Logic.{◌↔◌, inl, inr}
use mathlib.Core.Bool.{Bool, true, not, ◌&&◌}
use mathlib.Core.List.{[], ◌∷◌}
use native.Mathlib.Omega.{arith}
use interiors_api_client.Common.Text.{
  Text, text_eq, is_space, trim_start, trim_end, trim, lower, to_lower_case,
}

pub text_eq_refl : (s : Text) → text_eq s s ≡ true
unfolding text_eq
text_eq_refl [] = refl
text_eq_refl (c ∷ s) = ground (arith, text_eq_refl s)

pub eq_of_text_eq : (s t : Text) → text_eq s t ≡ true → s ≡ t
unfolding text_eq
eq_of_text_eq [] [] h = refl
eq_of_text_eq (c ∷ s) (d ∷ t) h = ground (arith, eq_of_text_eq s t)
eq_of_text_eq [] (d ∷ t) h = cc
eq_of_text_eq (c ∷ s) [] h = cc

pub text_eq_iff : (s t : Text) → (text_eq s t ≡ true) ↔ (s ≡ t)
text_eq_iff s t = (eq_of_text_eq s t, λ e. rw e (text_eq_refl t))

is_space-lower : (c : ℕ) → is_space (lower c) ≡ is_space c
unfolding is_space lower
is_space-lower c = ground arith

lower_idem : (c : ℕ) → lower (lower c) ≡ lower c
unfolding lower
lower_idem c = ground arith

pub to_lower_case_idem : (s : Text) → to_lower_case (to_lower_case s) ≡ to_lower_case s
unfolding to_lower_case
to_lower_case_idem [] = refl
to_lower_case_idem (c ∷ s) = ground (arith, lower_idem c, to_lower_case_idem s)

is_empty-to_lower_case : (s : Text) → is_empty (to_lower_case s) ≡ is_empty s
unfolding to_lower_case
is_empty-to_lower_case [] = refl
is_empty-to_lower_case (c ∷ s) = refl

trim_start-to_lower_case : (s : Text) → trim_start (to_lower_case s) ≡ to_lower_case (trim_start s)
unfolding trim_start to_lower_case
trim_start-to_lower_case [] = refl
trim_start-to_lower_case (c ∷ s) = elim (Bool-cases (is_space c)) [
  | inl e ↦ rw (is_space-lower, e) (trim_start-to_lower_case s)
  | inr e ↦ rw (is_space-lower, e) refl
]

trim_end-to_lower_case : (s : Text) → trim_end (to_lower_case s) ≡ to_lower_case (trim_end s)
unfolding trim_end to_lower_case
trim_end-to_lower_case [] = refl
trim_end-to_lower_case (c ∷ s) = elim (Bool-cases (is_space c && is_empty (trim_end s))) [
  | inl e ↦ rw (is_space-lower, trim_end-to_lower_case s, is_empty-to_lower_case, e) refl
  | inr e ↦ rw (is_space-lower, trim_end-to_lower_case s, is_empty-to_lower_case, e) refl
]

-- Trimming and lower-casing can be done in either order.
pub trim-to_lower_case : (s : Text) → trim (to_lower_case s) ≡ to_lower_case (trim s)
unfolding trim
trim-to_lower_case s =
    ap trim_end (trim_start-to_lower_case s) ∙ trim_end-to_lower_case (trim_start s)

trim_end_idem : (s : Text) → trim_end (trim_end s) ≡ trim_end s
unfolding trim_end
trim_end_idem [] = refl
trim_end_idem (c ∷ s) = elim (Bool-cases (is_space c && is_empty (trim_end s))) [
  | inl e ↦ rw e refl
  | inr e ↦ rw (e, trim_end, trim_end_idem s) (rw e refl)
]

-- The first code unit that is kept is no white space.
abbrev starts_plain : Text → Bool
starts_plain [] = true
starts_plain (c ∷ s) = not (is_space c)

trim_start-plain : (s : Text) → starts_plain (trim_start s) ≡ true
unfolding trim_start
trim_start-plain [] = refl
trim_start-plain (c ∷ s) = ground (arith, trim_start-plain s)

trim_start_of_plain : (s : Text) → starts_plain s ≡ true → trim_start s ≡ s
unfolding trim_start
trim_start_of_plain [] h = refl
trim_start_of_plain (c ∷ s) h = ground arith

trim_end-plain : (s : Text) → starts_plain s ≡ true → starts_plain (trim_end s) ≡ true
unfolding trim_end
trim_end-plain [] h = refl
trim_end-plain (c ∷ s) h = ground arith

pub trim_idem : (s : Text) → trim (trim s) ≡ trim s
unfolding trim
trim_idem s =
    let plain = trim_end-plain (trim_start s) (trim_start-plain s) in
    rw (trim_start_of_plain (trim_end (trim_start s)) plain) (trim_end_idem (trim_start s))
