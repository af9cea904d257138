-- ===== src/Infrastructure/Recaptcha/Setup/Hostnames.antt =====
-- The check of a hostname against its pattern.
use interiors_api_client.Common.{
  ℕ, ◌≡◌, refl, sym, subst, ◌↔◌, ◌⊎◌, inl, inr, Bool, true, false, ◌&&◌, ◌||◌, [], ◌∷◌, ◌++◌, arith,
  append-nil, ◌==◌,
}
use interiors_api_client.Common.Text.{Text}
use interiors_api_client.Infrastructure.Recaptcha.Setup.{
  is_alphanumeric, Place, before, letter, dash, fits_from, is_hostname,
}

-- `[a-z0-9-]*[a-z0-9]`
pub data IsEnd : Text → Type 0 where
  last : {c : ℕ} → is_alphanumeric c ≡ true → IsEnd (c ∷ [])
  dashed : {s : Text} → IsEnd s → IsEnd (b'-' ∷ s)
  lettered : {c : ℕ} {s : Text} → is_alphanumeric c ≡ true → IsEnd s → IsEnd (c ∷ s)

-- `[a-z0-9](?:[a-z0-9-]*[a-z0-9])?`
pub data IsLabel : Text → Type 0 where
  single : {c : ℕ} → is_alphanumeric c ≡ true → IsLabel (c ∷ [])
  longer : {c : ℕ} {s : Text} → is_alphanumeric c ≡ true → IsEnd s → IsLabel (c ∷ s)

-- The labels with a point between each two.
pub data IsHostname : Text → Type 0 where
  label : {s : Text} → IsLabel s → IsHostname s
  dotted : {s h : Text} → IsLabel s → IsHostname h → IsHostname (s ++ (b'.' ∷ h))

-- What is left of the pattern after a label.
data IsRest : Text → Type 0 where
  done : IsRest []
  point : {h : Text} → IsHostname h → IsRest (b'.' ∷ h)

-- What is left of the pattern at each place.
data IsLeft : Place → Text → Type 0 where
  starts : {s : Text} → IsHostname s → IsLeft before s
  ends : {s : Text} → IsRest s → IsLeft letter s
  goes_on : {s r : Text} → IsEnd s → IsRest r → IsLeft letter (s ++ r)
  must_end : {s r : Text} → IsEnd s → IsRest r → IsLeft dash (s ++ r)

labelled : {s r : Text} → IsLabel s → IsRest r → IsHostname (s ++ r)
labelled {s} l done = subst IsHostname (sym (append-nil s)) (label l)
labelled l (point h) = dotted l h

before_letter : {c : ℕ} {s : Text} → is_alphanumeric c ≡ true → IsLeft letter s → IsHostname (c ∷ s)
before_letter a (ends r) = labelled (single a) r
before_letter a (goes_on e r) = labelled (longer a e) r

after_letter :
    {c : ℕ} {s : Text}
    → is_alphanumeric c ≡ true
    → IsLeft letter s
    → (e r : Text) × (c ∷ s ≡ e ++ r) × IsEnd e × IsRest r
after_letter a (ends {s} r) = (_ ∷ [], s, refl, last a, r)
after_letter a (goes_on {s} {r} e q) = (_ ∷ s, r, refl, lettered a e, q)

after_dash : {s : Text} → IsLeft dash s → (e r : Text) × (b'-' ∷ s ≡ e ++ r) × IsEnd e × IsRest r
after_dash (must_end {s} {r} e q) = (b'-' ∷ s, r, refl, dashed e, q)

after_point : {s : Text} → IsLeft before s → IsRest (b'.' ∷ s)
after_point (starts h) = point h

both_true : (a b : Bool) → a && b ≡ true → (a ≡ true) × (b ≡ true)
both_true true b h = (refl, h)
both_true false b h = absurd (cc)

one_true : (a b : Bool) → a || b ≡ true → (a ≡ true) ⊎ (b ≡ true)
one_true true b h = inl refl
one_true false b h = inr h

started : {s : Text} → IsLeft before s → IsHostname s
started (starts h) = h

fits_from-before :
    (c : ℕ) (s : Text)
    → fits_from before (c ∷ s) ≡ true
    → (is_alphanumeric c ≡ true) × (fits_from letter s ≡ true)
unfolding fits_from
fits_from-before c s h = both_true (is_alphanumeric c) (fits_from letter s) h

fits_from-dash :
    (c : ℕ) (s : Text)
    → fits_from dash (c ∷ s) ≡ true
    → ((is_alphanumeric c ≡ true) × (fits_from letter s ≡ true))
      ⊎ ((b'-' ≡ c) × (fits_from dash s ≡ true))
unfolding fits_from
fits_from-dash c s h = ground arith

fits_from-letter :
    (c : ℕ) (s : Text)
    → fits_from letter (c ∷ s) ≡ true
    → ((is_alphanumeric c ≡ true) × (fits_from letter s ≡ true))
      ⊎ ((b'-' ≡ c) × (fits_from dash s ≡ true))
      ⊎ ((b'.' ≡ c) × (fits_from before s ≡ true))
unfolding fits_from
fits_from-letter c s h =
    elim (one_true ((is_alphanumeric c && fits_from letter s) || ((c == b'-') && fits_from dash s))
      ((c == b'.') && fits_from before s) h) [
        | inl x ↦ elim (fits_from-dash c s x) [ inl y ↦ inl y | inr y ↦ inr (inl y) ]
        | inr x ↦
            let (d, k) = both_true (c == b'.') (fits_from before s) x in
            inr (inr (ground (arith, d), k))
      ]

-- What the check takes is what is left of the pattern.
fits_from-IsLeft : (p : Place) (s : Text) → fits_from p s ≡ true → IsLeft p s
unfolding fits_from
fits_from-IsLeft letter [] h = ends done
fits_from-IsLeft before [] h = absurd (cc)
fits_from-IsLeft dash [] h = absurd (cc)
fits_from-IsLeft before (c ∷ s) h =
    let (a, k) = fits_from-before c s h in starts (before_letter a (fits_from-IsLeft letter s k))
fits_from-IsLeft letter (c ∷ s) h = elim (fits_from-letter c s h) [
  | inl (a, k) ↦
      let (e, r, split, en, q) = after_letter a (fits_from-IsLeft letter s k) in
      subst (IsLeft letter) (sym split) (goes_on en q)
  | inr (inl (d, k)) ↦
      let (e, r, split, en, q) = after_dash (fits_from-IsLeft dash s k) in
      subst (λ x. IsLeft letter (x ∷ s)) d (subst (IsLeft letter) (sym split) (goes_on en q))
  | inr (inr (d, k)) ↦
      subst (λ x. IsLeft letter (x ∷ s)) d (ends (after_point (fits_from-IsLeft before s k)))
]
fits_from-IsLeft dash (c ∷ s) h = elim (fits_from-dash c s h) [
  | inl (a, k) ↦
      let (e, r, split, en, q) = after_letter a (fits_from-IsLeft letter s k) in
      subst (IsLeft dash) (sym split) (must_end en q)
  | inr (d, k) ↦
      let (e, r, split, en, q) = after_dash (fits_from-IsLeft dash s k) in
      subst (λ x. IsLeft dash (x ∷ s)) d (subst (IsLeft dash) (sym split) (must_end en q))
]

end_fits :
    (e r : Text)
    → IsEnd e
    → fits_from letter r ≡ true
    → (fits_from letter (e ++ r) ≡ true) × (fits_from dash (e ++ r) ≡ true)
unfolding fits_from
end_fits _ r (last a) h = ground (arith, a)
end_fits _ r (dashed {s} e) h = ground (arith, end_fits s r e h)
end_fits _ r (lettered {c} {s} a e) h = ground (arith, a, end_fits s r e h)

label_fits : (l r : Text) → IsLabel l → fits_from letter r ≡ true → fits_from before (l ++ r) ≡ true
unfolding fits_from
label_fits _ r (single a) h = ground (arith, a)
label_fits _ r (longer {c} {s} a e) h = ground (arith, a, end_fits s r e h)

hostname_fits : (h : Text) → IsHostname h → fits_from before h ≡ true
unfolding fits_from
hostname_fits h (label l) =
    subst (λ x. fits_from before x ≡ true) (append-nil h) (label_fits h [] l refl)
hostname_fits _ (dotted {s} {h} l k) = label_fits s (b'.' ∷ h) l (ground (arith, hostname_fits h k))

pub is_hostname-IsHostname : (h : Text) → (is_hostname h ≡ true) ↔ IsHostname h
is_hostname-IsHostname h = (λ e. started (fits_from-IsLeft before h e), hostname_fits h)
