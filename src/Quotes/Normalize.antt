-- ===== src/Quotes/Normalize.antt =====
-- `normalizeQuoteData` (application/types/normalized_quote_data.types.ts), and the fingerprint of
-- `QuoteSubmissionGuardService` (application/services/quote-submission-guard.service.ts).
use interiors_api_client.Common.{
  ℕ, zero, suc, ◌+◌, ◌/◌, ◌%◌, ◌^◌, ◌&&◌, Option, none, some, [], ◌∷◌, ◌++◌, ◌==◌, if◌then◌else◌,
  is_empty,
}
use interiors_api_client.Common.Text.{Text, text, trim, to_lower_case, join, print}
use interiors_api_client.Common.Decimal.{Decimal}
use interiors_api_client.Common.Exception.{error}
use interiors_api_client.Common.Exec.{Result, ok, err}
use interiors_api_client.Quotes.Request.{
  CalculatorType, Rooms, FullHome, Location, Kitchen, Dimensions, Materials, Wardrobe,
  Configuration, of_full_home, of_kitchen, of_wardrobe, absent, Request, calculator_type,
}

-- The last `places` digits of a number, with the zeros in front.
unfoldable pub fixed_digits : ℕ → ℕ → Text
fixed_digits zero n = []
fixed_digits (suc p) n = fixed_digits p (n / 10) ++ ((48 + n % 10) ∷ [])

unfoldable pub strip_zeros : Text → Text
strip_zeros [] = []
strip_zeros (c ∷ s) =
    let rest = strip_zeros s in if (c == b'0') && is_empty rest then [] else c ∷ rest

abbrev with_point : Text → Text → Text
with_point w f = if is_empty f then w else w ++ (b'.' ∷ f)

-- A number in a template literal, for the sizes that are not written with an exponent.
unfoldable pub print_decimal : Decimal → Text
unfolding fixed_digits strip_zeros
print_decimal d =
    with_point (print (d.mantissa / 10 ^ d.places))
      (strip_zeros (fixed_digits d.places (d.mantissa % 10 ^ d.places)))

-- `email.trim().toLowerCase()`
unfoldable pub normalize_email : Text → Text
normalize_email s = to_lower_case (trim s)

pub record NormalizedQuoteData : Type 0 where
  pub calculator : CalculatorType
  pub email : Text
  pub phone : Text
  pub package_name : Option Text
  pub city : Text
  pub state : Text
  pub country : Text
  pub specifications_key : Text

-- The fields of an absent object cannot be read, here and below.
unfoldable pub full_home_key : FullHome → Option Rooms → Result Text
full_home_key c none = err error
full_home_key c (some rooms) = ok (
    c.bhk_type
    ++ (text "-"
        ++ (c.builtup_area
            ++ (text "-L"
                ++ (print rooms.living
                    ++ (text "B" ++ (print rooms.bedroom ++ (text "K" ++ print rooms.kitchen))))))))

unfoldable pub kitchen_key : Kitchen → Text
kitchen_key c = c.layout ++ (text "-" ++ c.builtup_area)

unfoldable pub wardrobe_key : Wardrobe → Option Dimensions → Option Materials → Result Text
unfolding print_decimal
wardrobe_key c (some d) (some m) = ok (
    c.wardrobe_type
    ++ (text "-"
        ++ (print_decimal d.width_feet
            ++ (text "x"
                ++ (print_decimal d.height_feet
                    ++ (text "#"
                        ++ (m.core
                            ++ (text "-"
                                ++ (m.finish ++ (text "$" ++ join (text ",") c.accessories))))))))))
wardrobe_key c _ _ = err error

unfoldable pub specifications_key : Configuration → Result Text
unfolding full_home_key kitchen_key wardrobe_key
specifications_key (of_full_home c) = full_home_key c c.rooms
specifications_key (of_kitchen c) = ok (kitchen_key c)
specifications_key (of_wardrobe c) = wardrobe_key c c.dimensions c.materials
specifications_key (absent t) = err error

abbrev pub package_of : Configuration → Option Text
package_of (of_full_home c) = some c.package_name
package_of (of_kitchen c) = some c.package_name
package_of (of_wardrobe c) = c.package_name
package_of (absent t) = none

abbrev pub normalized_at : Request → Text → Location → NormalizedQuoteData
normalized_at q key at = record {
  calculator = calculator_type q.configuration;
  email = normalize_email q.email;
  phone = trim q.phone;
  package_name = package_of q.configuration;
  city = to_lower_case (trim at.city);
  state = to_lower_case (trim at.state);
  country = to_lower_case (trim at.country);
  specifications_key = key;
}

abbrev pub normalized_with : Request → Option Location → Text → Result NormalizedQuoteData
normalized_with q none key = err error
normalized_with q (some at) key = ok (normalized_at q key at)

abbrev pub then_result : {A B : Type 0} → (A → Result B) → Result A → Result B
then_result f (ok a) = f a
then_result f (err e) = err e

unfoldable pub normalize_quote_data : Request → Result NormalizedQuoteData
unfolding specifications_key
normalize_quote_data q =
    then_result (normalized_with q q.location) (specifications_key q.configuration)

-- The values of the enum `CalculatorType`.
abbrev pub calculator_name : CalculatorType → Text
calculator_name CalculatorType.full_home = text "full_home"
calculator_name CalculatorType.kitchen = text "kitchen"
calculator_name CalculatorType.wardrobe = text "wardrobe"

abbrev version_key : CalculatorType → Text
version_key CalculatorType.full_home = text "FULL_HOME_PRICING_VERSION"
version_key CalculatorType.kitchen = text "KITCHEN_PRICING_VERSION"
version_key CalculatorType.wardrobe = text "WARDROBE_PRICING_VERSION"

-- `join` writes nothing for `undefined`, a template literal its name.
abbrev joined : Option Text → Text
joined none = []
joined (some s) = s

abbrev in_template : Option Text → Text
in_template none = text "undefined"
in_template (some s) = s

module _ (sha256 : Text → Text) (config : Text → Option Text) where
  unfoldable pub canonical : NormalizedQuoteData → Text
  canonical d =
      join (text "|") (
        calculator_name d.calculator
        ∷ d.specifications_key
        ∷ to_lower_case (trim d.email)
        ∷ trim d.phone
        ∷ joined d.package_name
        ∷ d.city
        ∷ d.state
        ∷ [])
      ++ (text "|" ++ in_template (config (version_key d.calculator)))

  unfoldable pub generate_fingerprint : NormalizedQuoteData → Text
  generate_fingerprint d = sha256 (canonical d)
