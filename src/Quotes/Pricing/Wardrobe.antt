-- ===== src/Quotes/Pricing/Wardrobe.antt =====
-- `WardrobePricingStrategy` (domain/pricing/strategies/wardrobe-pricing.strategy.ts).
use interiors_api_client.Common.{
  ℕ, Bool, true, false, Option, none, some, List, [], ◌∷◌, if◌then◌else◌, is_empty,
}
use interiors_api_client.Common.Text.{Text, text, text_eq, trim, to_lower_case}
use interiors_api_client.Common.Decimal.{Decimal, decimal, whole, ◌+d◌, ◌*d◌, round}
use interiors_api_client.Quotes.Request.{CalculatorType, Dimensions, Materials, Wardrobe}
use interiors_api_client.Quotes.Pricing.Kitchen.{find_number, or_zero}

abbrev pub supports : CalculatorType → Bool
supports CalculatorType.wardrobe = true
supports _ = false

abbrev pub Catalog : Type 0
Catalog = List (Text × Decimal)

abbrev pub core_cost_per_sqft : Catalog
core_cost_per_sqft =
    (text "mdf", whole 80) ∷ (text "hdhmr", whole 120) ∷ (text "plywood", whole 160) ∷ []

abbrev pub finish_cost_per_sqft : Catalog
finish_cost_per_sqft =
    (text "laminate", whole 100)
    ∷ (text "acrylic", whole 250)
    ∷ (text "veneer", whole 300)
    ∷ (text "pu paint", whole 350)
    ∷ (text "glass", whole 400)
    ∷ []

abbrev pub type_hardware_cost_per_sqft : Catalog
type_hardware_cost_per_sqft =
    (text "hinged door", whole 50)
    ∷ (text "sliding door", whole 150)
    ∷ (text "walk-in", whole 0)
    ∷ []

abbrev pub accessory_flat_cost : Catalog
accessory_flat_cost =
    (text "drawers", whole 3500)
    ∷ (text "shoe rack", whole 2500)
    ∷ (text "jewellery organizer", whole 3000)
    ∷ (text "mirror", whole 2000)
    ∷ (text "led lighting", whole 2500)
    ∷ (text "soft close hinges", whole 1500)
    ∷ (text "tie holder", whole 1000)
    ∷ (text "trouser pull-out", whole 3000)
    ∷ []

abbrev pub package_multiplier : Catalog
package_multiplier =
    (text "essential", whole 1)
    ∷ (text "standard", decimal 115 2)
    ∷ (text "premium", decimal 13 1)
    ∷ (text "luxury", decimal 15 1)
    ∷ []

unfoldable pub lookup : Text → Catalog → Decimal → Decimal
lookup key [] fallback = fallback
lookup key ((k, d) ∷ rest) fallback = if text_eq key k then d else lookup key rest fallback

unfoldable pub get_safe_rate : Catalog → Option Text → Decimal → Decimal
unfolding lookup
get_safe_rate catalog none fallback = fallback
get_safe_rate catalog (some key) fallback =
    if is_empty key then fallback else lookup (to_lower_case (trim key)) catalog fallback

unfoldable pub parse_fallback_dimension : Text → Decimal
unfolding find_number
parse_fallback_dimension s = or_zero (find_number s)

abbrev pub width_of : Option Dimensions → Text → Decimal
width_of (some d) length = d.width_feet
width_of none length = parse_fallback_dimension length

abbrev pub height_of : Option Dimensions → Text → Decimal
height_of (some d) height = d.height_feet
height_of none height = parse_fallback_dimension height

abbrev pub core_of : Option Materials → Option Text
core_of none = none
core_of (some m) = some m.core

abbrev pub finish_of : Option Materials → Option Text
finish_of none = none
finish_of (some m) = some m.finish

unfoldable pub area_sqft : Wardrobe → Decimal
area_sqft c = width_of c.dimensions c.length *d height_of c.dimensions c.height

unfoldable pub rate_per_sqft : Wardrobe → Decimal
unfolding get_safe_rate
rate_per_sqft c =
    get_safe_rate core_cost_per_sqft (core_of c.materials) (whole 120)
    +d get_safe_rate finish_cost_per_sqft (finish_of c.materials) (whole 100)
    +d get_safe_rate type_hardware_cost_per_sqft (some c.wardrobe_type) (whole 50)

unfoldable pub accessories_from : Decimal → List Text → Decimal
unfolding get_safe_rate
accessories_from acc [] = acc
accessories_from acc (a ∷ as') =
    accessories_from (acc +d get_safe_rate accessory_flat_cost (some a) (whole 0)) as'

-- The cost before the package, and with its multiplier if one is named.
unfoldable pub base_total : Wardrobe → Decimal
unfolding area_sqft rate_per_sqft accessories_from
base_total c =
    if is_empty c.accessories
    then area_sqft c *d rate_per_sqft c
    else area_sqft c *d rate_per_sqft c +d accessories_from (whole 0) c.accessories

abbrev pub times_package : Option Text → Decimal → Decimal
times_package none d = d
times_package (some p) d =
    if is_empty p then d else d *d get_safe_rate package_multiplier (some p) (whole 1)

unfoldable pub calculate_estimate : Wardrobe → ℕ
unfolding base_total get_safe_rate
calculate_estimate c = round (times_package c.package_name (base_total c))
