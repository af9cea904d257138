-- ===== src/Common/Decimal.antt =====
-- Non-negative decimal numbers, `mantissa / 10 ^ places`. The source computes with doubles; here
-- sums and products are exact.
pub mod Laws
use Prim.Native.Nat.{ℕ, ◌+◌, ◌*◌, ◌/◌, ◌^◌, ◌≤◌}
use mathlib.Core.Bool.{Bool}
use interiors_api_client.Common.Tests.{◌==◌}

pub record Decimal : Type 0 where
  pub mantissa : ℕ
  pub places : ℕ

abbrev pub decimal : ℕ → ℕ → Decimal
decimal m p = record { mantissa = m; places = p }

-- A whole number.
abbrev pub whole : ℕ → Decimal
whole n = decimal n 0

infixl 65 ◌+d◌
infixl 70 ◌*d◌
unfoldable pub ◌+d◌ : Decimal → Decimal → Decimal
a +d b = decimal (a.mantissa * 10 ^ b.places + b.mantissa * 10 ^ a.places) (a.places + b.places)

unfoldable pub ◌*d◌ : Decimal → Decimal → Decimal
a *d b = decimal (a.mantissa * b.mantissa) (a.places + b.places)

-- `Math.round`: the nearest whole number, a tie goes up.
unfoldable pub round : Decimal → ℕ
round a = (2 * a.mantissa + 10 ^ a.places) / (2 * 10 ^ a.places)

-- The order of the numbers that stand for.
infix 50 ◌≤d◌
abbrev pub ◌≤d◌ : Decimal → Decimal → Type 0
a ≤d b = a.mantissa * 10 ^ b.places ≤ b.mantissa * 10 ^ a.places

-- `x === 0`
abbrev pub is_zero : Decimal → Bool
is_zero a = a.mantissa == 0
