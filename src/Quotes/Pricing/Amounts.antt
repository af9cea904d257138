-- ===== src/Quotes/Pricing/Amounts.antt =====
-- What the estimates are: whole amounts, prices for every complete request, and prices that grow with what
-- is ordered.
use interiors_api_client.Common.{
  ℕ, ◌+◌, ◌*◌, ◌^◌, ◌≤◌, ◌≡◌, refl, Bool, true, false, Option, none, some, arith, is_empty,
  Bool-cases, Option-cases, inl, inr, if◌then◌else◌, ◌⊎◌, sym, ◌∙◌, ap,
}
use interiors_api_client.Common.Text.{Text}
use interiors_api_client.Common.Decimal.{Decimal, whole, ◌+d◌, ◌*d◌, ◌≤d◌}
use interiors_api_client.Common.Decimal.Laws.{≤d_refl, *d_mono, +d_mono, round_mono}
use interiors_api_client.Common.Exception.{error}
use interiors_api_client.Common.Exec.{ok, err}
use interiors_api_client.Quotes.Request.{
  Rooms, FullHome, Dimensions, Wardrobe, Configuration, of_full_home, of_kitchen, of_wardrobe,
  absent, Request, calculator_type, Materials, Location,
}
use interiors_api_client.Quotes.Normalize.{
  NormalizedQuoteData, normalize_quote_data, specifications_key, full_home_key, wardrobe_key,
  normalized_at,
}
use interiors_api_client.Quotes.Pricing.FullHome
use interiors_api_client.Quotes.Pricing.Wardrobe
use interiors_api_client.Quotes.Pricing.Resolver.{
  Strategy, supports, resolve, registered, calculate_estimate,
}

-- A multiple of ten thousand.
abbrev IsRound : ℕ → Type 0
IsRound x = (n : ℕ) × (x ≡ n * 10_000)

if-IsRound : (b : Bool) (x y : ℕ) → IsRound x → IsRound y → IsRound (if b then x else y)
if-IsRound true x y hx hy = hx
if-IsRound false x y hx hy = hy

base_cost-IsRound : (bhk : Text) → IsRound (FullHome.base_cost bhk)
unfolding FullHome.base_cost
base_cost-IsRound bhk =
    if-IsRound _ _ _ (10, refl)
      (if-IsRound _ _ _ (20, refl)
        (if-IsRound _ _ _ (30, refl) (if-IsRound _ _ _ (50, refl) (0, refl))))

room_cost-IsRound : (r : Rooms) → IsRound (FullHome.room_cost r)
unfolding FullHome.room_cost
room_cost-IsRound r = (
  r.living * 3
      + r.kitchen * 2
      + r.bedroom * 3
      + r.bathroom * 2
      + FullHome.count_or_zero r.dining * 3,
  omega arith,
)

area_multiplier-places : (area : Text) → (FullHome.area_multiplier area).places ≡ 2
unfolding FullHome.area_multiplier
area_multiplier-places area = ground arith

package_multiplier-places : (p : Text) → (FullHome.package_multiplier p).places ≡ 1
unfolding FullHome.package_multiplier
package_multiplier-places p = ground arith

-- Whatever the rooms, the area and the package, the exact estimate of a full home is a whole number
-- of rupees, so that its strategy needs no rounding.
pub estimate_whole :
    (c : FullHome) (rooms : Rooms)
    → (n : ℕ) × ((FullHome.estimate c rooms).mantissa ≡ n * 10 ^ (FullHome.estimate c rooms).places)
unfolding FullHome.estimate ◌*d◌
estimate_whole c rooms =
    let (k, base) = base_cost-IsRound c.bhk_type in
    let (j, rooms_round) = room_cost-IsRound rooms in
    let a = (FullHome.area_multiplier c.builtup_area).mantissa in
    let p = (FullHome.package_multiplier c.package_name).mantissa in
    (
      10 * (k + j) * a * p,
      rw
          (
            base,
            rooms_round,
            area_multiplier-places c.builtup_area,
            package_multiplier-places c.package_name,
          )
          (omega arith),
    )

-- The parts of a configuration that its key and its price read are there.
abbrev pub IsGiven : Configuration → Type 0
IsGiven (of_full_home c) = (rooms : Rooms) × (c.rooms ≡ some rooms)
IsGiven (of_kitchen c) = Unit {0}
IsGiven (of_wardrobe c) =
    ((d : Dimensions) × (c.dimensions ≡ some d)) × (m : Materials) × (c.materials ≡ some m)
IsGiven (absent t) = ⊥

abbrev pub IsComplete : Request → Type 0
IsComplete q = IsGiven q.configuration × (at : Location) × (q.location ≡ some at)

-- The type of the configuration has a registered strategy, one that supports it, which prices it.
abbrev pub IsPriced : Configuration → Type 0
IsPriced c =
    (s : Strategy) × (d : Decimal) × (resolve registered (calculator_type c) ≡ ok s)
    × (supports (calculator_type c) s ≡ true)
    × (calculate_estimate s c ≡ ok d)

full_home_key-some : (c : FullHome) (r : Rooms) → (key : Text) × (full_home_key c (some r) ≡ ok key)
unfolding full_home_key
full_home_key-some c r = (_, refl)

wardrobe_key-some :
    (c : Wardrobe) (d : Dimensions) (m : Materials)
    → (key : Text) × (wardrobe_key c (some d) (some m) ≡ ok key)
unfolding wardrobe_key
wardrobe_key-some c d m = (_, refl)

wardrobe_key-none : (c : Wardrobe) (d : Option Dimensions) → wardrobe_key c d none ≡ err error
unfolding wardrobe_key
wardrobe_key-none c none = refl
wardrobe_key-none c (some d) = refl

specifications_key-cases :
    (c : Configuration)
    → (IsGiven c × IsPriced c × (key : Text) × (specifications_key c ≡ ok key))
      ⊎ ((IsGiven c → ⊥) × (specifications_key c ≡ err error))
unfolding specifications_key full_home_key wardrobe_key resolve calculate_estimate
    FullHome.calculate_estimate
specifications_key-cases (of_full_home c) = elim (Option-cases c.rooms) [
  | inl e ↦ inr ((λ (r, h). let k = sym e ∙ h in absurd (cc)), rw e refl)
  | inr (r, e) ↦
      let (key, made) = full_home_key-some c r in
      inl (
        (r, e),
        (Strategy.full_home, FullHome.estimate c r, refl, refl, ap (FullHome.estimate_with c) e),
        key,
        ap (full_home_key c) e ∙ made,
      )
]
specifications_key-cases (of_kitchen c) = inl (tt, (Strategy.kitchen, _, refl, refl, refl), _, refl)
specifications_key-cases (of_wardrobe c) = elim (Option-cases c.dimensions) [
  | inl e ↦ inr (
    (λ ((d, h), _, _). let k = sym e ∙ h in absurd (cc)),
    ap (λ d. wardrobe_key c d c.materials) e,
  )
  | inr (d, e) ↦ elim (Option-cases c.materials) [
    | inl e' ↦ inr (
      (λ (_, m, h). let k = sym e' ∙ h in absurd (cc)),
      ap (wardrobe_key c c.dimensions) e' ∙ wardrobe_key-none c _,
    )
    | inr (m, e') ↦
        let (key, made) = wardrobe_key-some c d m in
        inl (
          ((d, e), m, e'),
          (Strategy.wardrobe, _, refl, refl, refl),
          key,
          ap (λ d. wardrobe_key c d c.materials) e ∙ ap (wardrobe_key c (some d)) e' ∙ made,
        )
  ]
]
specifications_key-cases (absent t) = inr ((λ h. h), refl)

-- Every request is one of two kinds. Either it has a location and a configuration with all that its
-- key reads (rooms for a full home; dimensions and materials for a wardrobe): then its data are
-- normalized, its calculator type has a registered strategy, one that supports it, and this
-- strategy prices it without an exception. Or one of these is missing, and the normalization ends
-- in a plain error.
pub resolve-calculate_estimate :
    (q : Request)
    → (IsComplete q
        × IsPriced q.configuration
        × (n : NormalizedQuoteData) × (normalize_quote_data q ≡ ok n))
      ⊎ ((IsComplete q → ⊥) × (normalize_quote_data q ≡ err error))
unfolding normalize_quote_data
resolve-calculate_estimate q = elim (specifications_key-cases q.configuration) [
  | inr (missing, thrown) ↦ inr ((λ (given, _, _). missing given), rw thrown refl)
  | inl (given, priced, key, made) ↦ elim (Option-cases q.location) [
    | inl e ↦ inr ((λ (_, at, h). let k = sym e ∙ h in absurd (cc)), rw (made, e) refl)
    | inr (at, e) ↦ inl ((given, at, e), priced, normalized_at q key at, rw (made, e) refl)
  ]
]

pub normalize_quote_data-IsPriced :
    (q : Request) (n : NormalizedQuoteData)
    → normalize_quote_data q ≡ ok n
    → IsPriced q.configuration
normalize_quote_data-IsPriced q n h = elim (resolve-calculate_estimate q) [
  | inl (_, priced, _, _) ↦ priced
  | inr (_, thrown) ↦ let k = sym thrown ∙ h in absurd (cc)
]

times_package_mono :
    (p : Option Text) (a b : Decimal)
    → a ≤d b
    → Wardrobe.times_package p a ≤d Wardrobe.times_package p b
times_package_mono none a b h = h
times_package_mono (some p) a b h = elim (Bool-cases (is_empty p)) [
  | inl e ↦ rw e h
  | inr e ↦ rw e (*d_mono a b _ _ h (≤d_refl _))
]

-- The base total grows with the area, with or without accessories.
base_mono :
    (b : Bool) (x y r a : Decimal)
    → x ≤d y
    → (if b then x *d r else x *d r +d a) ≤d (if b then y *d r else y *d r +d a)
base_mono true x y r a h = *d_mono x y r r h (≤d_refl r)
base_mono false x y r a h =
    +d_mono (x *d r) (y *d r) a a (*d_mono x y r r h (≤d_refl r)) (≤d_refl a)

-- With everything else the same, a wardrobe that is at least as wide and as high costs at least as
-- much.
pub calculate_estimate_mono :
    (c : Wardrobe) (d e : Dimensions)
    → d.width_feet ≤d e.width_feet
    → d.height_feet ≤d e.height_feet
    → Wardrobe.calculate_estimate (record c { dimensions = some d })
      ≤ Wardrobe.calculate_estimate (record c { dimensions = some e })
unfolding Wardrobe.calculate_estimate Wardrobe.base_total Wardrobe.area_sqft Wardrobe.rate_per_sqft
calculate_estimate_mono c d e hw hh = round_mono _ _ (
    times_package_mono c.package_name _ _ (
      base_mono (is_empty c.accessories) _ _ (Wardrobe.rate_per_sqft c)
        (Wardrobe.accessories_from (whole 0) c.accessories)
        (*d_mono d.width_feet e.width_feet d.height_feet e.height_feet hw hh)))
