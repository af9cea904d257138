-- ===== src/Quotes/Pricing/Kitchen.antt =====
-- `KitchenPricingStrategy` (domain/pricing/strategies/kitchen-pricing.strategy.ts). The regular
-- expressions are matched by hand: each is deterministic on a text, and no match of the one for
-- wall segments holds the start of another.
use interiors_api_client.Common.{
  ℕ, zero, suc, ◌+◌, ◌-◌, ◌*◌, ◌^◌, Bool, true, false, ◌&&◌, Option, none, some, List, [], ◌∷◌, leb,
  ◌==◌, if◌then◌else◌,
}
use interiors_api_client.Common.Text.{Text, text, text_eq, trim_start, lower}
use interiors_api_client.Common.Decimal.{Decimal, decimal, whole, ◌+d◌, ◌*d◌, round}
use interiors_api_client.Quotes.Request.{CalculatorType, Area, measured, described, Kitchen}

abbrev pub supports : CalculatorType → Bool
supports CalculatorType.kitchen = true
supports _ = false

abbrev pub is_digit : ℕ → Bool
is_digit c = leb 48 c && leb c 57

-- The digits that a text begins with: their value onto `v`, how many, and the rest.
unfoldable pub span_digits : ℕ → ℕ → Text → ℕ × ℕ × Text
span_digits v n [] = (v, n, [])
span_digits v n (c ∷ s) =
    let more = span_digits (v * 10 + (c - 48)) (suc n) s in
    if is_digit c then more else (v, n, c ∷ s)

-- `(\.\d+)?` after the digits of `v`
abbrev pub fraction_of : ℕ → Text → ℕ × ℕ × Text → Decimal × Text
fraction_of v whole_rest (f, zero, rest) = (whole v, whole_rest)
fraction_of v whole_rest (f, suc k, rest) = (decimal (v * 10 ^ suc k + f) (suc k), rest)

abbrev pub with_fraction : ℕ → Text → Decimal × Text
with_fraction v [] = (whole v, [])
with_fraction v (c ∷ s) =
    if c == b'.' then fraction_of v (c ∷ s) (span_digits 0 0 s) else (whole v, c ∷ s)

abbrev pub number_of : ℕ × ℕ × Text → Option (Decimal × Text)
number_of (v, zero, rest) = none
number_of (v, suc n, rest) = some (with_fraction v rest)

-- `\d+(\.\d+)?` at the start of a text, with `parseFloat` of what it matched.
unfoldable pub match_number : Text → Option (Decimal × Text)
unfolding span_digits
match_number s = number_of (span_digits 0 0 s)

-- A text at the start of another, whatever the case of the letters.
unfoldable pub drop_prefix : Text → Text → Option Text
unfolding lower
drop_prefix [] s = some s
drop_prefix (p ∷ ps) [] = none
drop_prefix (p ∷ ps) (c ∷ s) =
    let rest = drop_prefix ps s in if lower c == lower p then rest else none

abbrev close_number : Text → Option (Decimal × Text) → Option Decimal
close_number suffix none = none
close_number suffix (some (d, rest)) = elim (drop_prefix suffix (trim_start rest)) [
  | none ↦ none
  | some _ ↦ some d
]

abbrev open_number : Text → Option Text → Option Decimal
open_number suffix none = none
open_number suffix (some rest) = close_number suffix (match_number (trim_start rest))

-- A prefix, a number and a suffix, with white space round the number.
unfoldable pub match_between : Text → Text → Text → Option Decimal
unfolding match_number drop_prefix trim_start
match_between prefix suffix s = open_number suffix (drop_prefix prefix s)

-- `/\(Total:\s*(\d+(\.\d+)?)\s*ft\)/i`, the leftmost match.
unfoldable pub find_total : Text → Option Decimal
find_total [] = none
find_total (c ∷ s) =
    let later = find_total s in
    elim (match_between (text "(Total:") (text "ft)") (c ∷ s)) [ some d ↦ some d | none ↦ later ]

-- `/:\s*(\d+(\.\d+)?)\s*ft/gi`, every match.
unfoldable pub find_segments : Text → List Decimal
find_segments [] = []
find_segments (c ∷ s) =
    let later = find_segments s in
    elim (match_between (text ":") (text "ft") (c ∷ s)) [ some d ↦ d ∷ later | none ↦ later ]

-- `/(\d+(\.\d+)?)/`, the leftmost match.
unfoldable pub find_number : Text → Option Decimal
unfolding match_number
find_number [] = none
find_number (c ∷ s) =
    let later = find_number s in
    elim (match_number (c ∷ s)) [ some (d, rest) ↦ some d | none ↦ later ]

unfoldable pub sum : Decimal → List Decimal → Decimal
sum acc [] = acc
sum acc (d ∷ ds) = sum (acc +d d) ds

abbrev pub or_zero : Option Decimal → Decimal
or_zero none = whole 0
or_zero (some d) = d

abbrev from_segments : Text → List Decimal → Decimal
from_segments s [] = or_zero (find_number s)
from_segments s (d ∷ ds) = sum (whole 0) (d ∷ ds)

abbrev from_total : Text → Option Decimal → Decimal
from_total s (some d) = d
from_total s none = from_segments s (find_segments s)

unfoldable pub extract_total_running_feet : Area → Decimal
unfolding find_total find_segments match_between find_number sum
extract_total_running_feet (measured n) = n
extract_total_running_feet (described s) = from_total s (find_total s)

-- `PACKAGE_RATES[packageName] ?? DEFAULT_RATE`
unfoldable pub rate_per_foot : Text → ℕ
rate_per_foot package_name =
    if text_eq package_name (text "ESSENTIAL")
    then 1800
    else if text_eq package_name (text "PREMIUM")
    then 2500
    else if text_eq package_name (text "LUXURY")
    then 3500
    else 2200

unfoldable pub calculate_estimate : Kitchen → ℕ
unfolding extract_total_running_feet rate_per_foot
calculate_estimate c =
    round (
      extract_total_running_feet (described c.builtup_area) *d whole (rate_per_foot c.package_name))
