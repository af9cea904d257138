-- ===== src/Quotes/Pricing/Resolver.antt =====
-- `PricingStrategyResolver` (application/pricing/pricing-strategy-resolver.service.ts) over the
-- strategies that quotes.module.ts registers.
use interiors_api_client.Common.{Bool, Option, none, some, List, [], ◌∷◌, find?}
use interiors_api_client.Common.Decimal.{Decimal, whole}
use interiors_api_client.Common.Exception.{bad_request, error}
use interiors_api_client.Common.Exec.{Result, ok, err}
use interiors_api_client.Quotes.Request.{
  CalculatorType, Configuration, of_full_home, of_kitchen, of_wardrobe, absent,
}
use interiors_api_client.Quotes.Pricing.FullHome
use interiors_api_client.Quotes.Pricing.Kitchen
use interiors_api_client.Quotes.Pricing.Wardrobe

-- `PricingStrategy`
pub data Strategy : Type 0 where
  full_home kitchen wardrobe : Strategy

abbrev pub supports : CalculatorType → Strategy → Bool
supports t full_home = FullHome.supports t
supports t kitchen = Kitchen.supports t
supports t wardrobe = Wardrobe.supports t

-- A cast does not check anything: a strategy reads the fields that a configuration of another kind
-- has, and `undefined` for the others, which makes the area 0; of an absent configuration it reads none.
unfoldable pub calculate_estimate : Strategy → Configuration → Result Decimal
calculate_estimate full_home c = FullHome.calculate_estimate c
calculate_estimate kitchen (of_kitchen c) = ok (whole (Kitchen.calculate_estimate c))
calculate_estimate kitchen (of_full_home c) = ok (
    whole (
      Kitchen.calculate_estimate
        (record { package_name = c.package_name; layout = []; builtup_area = c.builtup_area })))
calculate_estimate kitchen (of_wardrobe c) = ok (whole 0)
calculate_estimate kitchen (absent t) = err error
calculate_estimate wardrobe (of_wardrobe c) = ok (whole (Wardrobe.calculate_estimate c))
calculate_estimate wardrobe (of_full_home c) = ok (whole 0)
calculate_estimate wardrobe (of_kitchen c) = ok (whole 0)
calculate_estimate wardrobe (absent t) = err error

abbrev or_unsupported : Option Strategy → Result Strategy
or_unsupported none = err bad_request
or_unsupported (some s) = ok s

unfoldable pub resolve : List Strategy → CalculatorType → Result Strategy
resolve strategies t = or_unsupported (find? (supports t) strategies)

abbrev pub registered : List Strategy
registered = full_home ∷ kitchen ∷ wardrobe ∷ []
