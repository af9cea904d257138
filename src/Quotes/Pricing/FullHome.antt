-- ===== src/Quotes/Pricing/FullHome.antt =====
-- `FullHomePricingStrategy` (domain/pricing/strategies/full-home-pricing.strategy.ts).
use interiors_api_client.Common.{ℕ, ◌+◌, ◌*◌, Bool, true, false, Option, none, some, if◌then◌else◌}
use interiors_api_client.Common.Text.{Text, text, text_eq}
use interiors_api_client.Common.Decimal.{Decimal, decimal, whole, ◌*d◌}
use interiors_api_client.Common.Exception.{error}
use interiors_api_client.Common.Exec.{Result, ok, err}
use interiors_api_client.Quotes.Request.{
  CalculatorType, Rooms, FullHome, Configuration, of_full_home,
}

abbrev pub supports : CalculatorType → Bool
supports CalculatorType.full_home = true
supports _ = false

-- `PRICING.baseBhk[bhkType] || 0`
unfoldable pub base_cost : Text → ℕ
base_cost bhk =
    if text_eq bhk (text "1BHK")
    then 100_000
    else if text_eq bhk (text "2BHK")
    then 200_000
    else if text_eq bhk (text "3BHK")
    then 300_000
    else if text_eq bhk (text "4+ BHK / Villa")
    then 500_000
    else 0

abbrev pub count_or_zero : Option ℕ → ℕ
count_or_zero none = 0
count_or_zero (some n) = n

unfoldable pub room_cost : Rooms → ℕ
room_cost r =
    r.living * 30_000
    + r.kitchen * 20_000
    + r.bedroom * 30_000
    + r.bathroom * 20_000
    + count_or_zero r.dining * 30_000

unfoldable pub area_multiplier : Text → Decimal
area_multiplier area =
    if text_eq area (text "Below 800 sq. ft.") then decimal 100 2 else decimal 125 2

-- `PRICING.packageMultiplier[packageType] || 1.0`
unfoldable pub package_multiplier : Text → Decimal
package_multiplier package_name =
    if text_eq package_name (text "ESSENTIAL")
    then decimal 10 1
    else if text_eq package_name (text "PREMIUM")
    then decimal 14 1
    else if text_eq package_name (text "LUXURY")
    then decimal 20 1
    else decimal 10 1

unfoldable pub estimate : FullHome → Rooms → Decimal
unfolding base_cost room_cost area_multiplier package_multiplier
estimate c rooms =
    whole (base_cost c.bhk_type + room_cost rooms)
    *d area_multiplier c.builtup_area
    *d package_multiplier c.package_name

-- The counts of absent rooms cannot be read.
abbrev pub estimate_with : FullHome → Option Rooms → Result Decimal
estimate_with c none = err error
estimate_with c (some rooms) = ok (estimate c rooms)

unfoldable pub calculate_estimate : Configuration → Result Decimal
calculate_estimate (of_full_home c) = estimate_with c c.rooms
calculate_estimate _ = err error
