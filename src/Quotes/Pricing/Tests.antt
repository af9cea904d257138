-- ===== src/Quotes/Pricing/Tests.antt =====
-- The estimates of a home, a wardrobe and a kitchen.
use interiors_api_client.Common.{ℕ, ◌≤◌, ◌≡◌, ◌⊎◌, none, some, [], ◌++◌, arith}
use interiors_api_client.Common.Text.{text}
use interiors_api_client.Common.Decimal.{whole}
use interiors_api_client.Common.Exception.{error}
use interiors_api_client.Common.Exec.{ok, err}
use interiors_api_client.Quotes.Request.{
  described, FullHome, Wardrobe, Dimensions, Rooms, of_full_home, Request, Location,
}
use interiors_api_client.Quotes.Normalize.{NormalizedQuoteData, normalize_quote_data}
use interiors_api_client.Quotes.Pricing.Wardrobe
use interiors_api_client.Quotes.Pricing.Kitchen.{extract_total_running_feet}
use interiors_api_client.Quotes.Pricing.Amounts.{
  IsComplete, IsPriced, resolve-calculate_estimate, calculate_estimate_mono,
}
use interiors_api_client.Quotes.Pricing.RunningFeet.{total_text, extract_total_running_feet-total}

abbrev rooms : Rooms
rooms = record {
  living = 1;
  kitchen = 1;
  bedroom = 2;
  bathroom = 2;
  dining = none;
  balcony = some 1;
  pooja = none;
  laundry = none;
}

abbrev home : FullHome
home = record {
  bhk_type = text "2BHK";
  builtup_area = text "Below 800 sq. ft.";
  rooms = some rooms;
  package_name = text "PREMIUM";
}

abbrev pune : Location
pune = record { city = text "Pune"; state = text "MH"; country = text "India" }

abbrev request : Request
request = record {
  configuration = of_full_home home;
  name = text "Ann";
  phone = text "98";
  email = text "ann@site.org";
  location = some pune;
  recaptcha_token = text "t";
}

resolve-calculate_estimate_example :
    (IsComplete request
      × IsPriced request.configuration
      × (n : NormalizedQuoteData) × (normalize_quote_data request ≡ ok n))
    ⊎ ((IsComplete request → ⊥) × (normalize_quote_data request ≡ err error))
resolve-calculate_estimate_example = resolve-calculate_estimate request

abbrev closet : Wardrobe
closet = record {
  wardrobe_type = text "Sliding";
  length = text "8 ft";
  height = text "7 ft";
  package_name = none;
  dimensions = none;
  materials = none;
  accessories = [];
}

abbrev square : ℕ → Dimensions
square n = record { width_feet = whole n; height_feet = whole n }

calculate_estimate_mono_example :
    Wardrobe.calculate_estimate (record closet { dimensions = some (square 7) })
    ≤ Wardrobe.calculate_estimate (record closet { dimensions = some (square 8) })
calculate_estimate_mono_example =
    calculate_estimate_mono closet (square 7) (square 8) (omega arith) (omega arith)

extract_total_running_feet-total_example :
    extract_total_running_feet (described (text "A:8ft x B:6ft " ++ total_text 14 [])) ≡ whole 14
extract_total_running_feet-total_example =
    extract_total_running_feet-total (text "A:8ft x B:6ft ") [] 14 (ground arith)
