-- ===== src/Common/Decimal/Laws.antt =====
-- Sums, products and rounding respect the order of the numbers that decimals stand for.
use Prim.Native.Nat.{ℕ, zero, suc, ◌+◌, ◌*◌, ◌/◌, ◌^◌, ◌≤◌, ◌<◌}
use mathlib.Core.Path.{◌≡◌}
use native.Mathlib.Omega.{arith}
use native.Mathlib.Nat.{
  pow-zero, pow-suc, zero-add, suc-add, mul-le-mul, le_refl, mul-div-le, le-div_iff_mul-le,
  le_of_mul-le-mul_left,
}
use interiors_api_client.Common.Decimal.{Decimal, ◌+d◌, ◌*d◌, round, ◌≤d◌}

ten_pow_pos : (n : ℕ) → 0 < 10 ^ n
ten_pow_pos zero = omega arith
ten_pow_pos (suc n) = rw pow-suc (omega (arith, ten_pow_pos n))

pow-add : (a b : ℕ) → 10 ^ (a + b) ≡ 10 ^ a * 10 ^ b
pow-add zero b = rw (zero-add, pow-zero) (omega arith)
pow-add (suc a) b = rw (suc-add, pow-suc, pow-suc, pow-add a b) (omega arith)

pub ≤d_refl : (a : Decimal) → a ≤d a
≤d_refl a = omega arith

pub *d_mono : (a b c d : Decimal) → a ≤d b → c ≤d d → a *d c ≤d b *d d
unfolding ◌*d◌
*d_mono a b c d h k =
    rw (pow-add b.places d.places, pow-add a.places c.places) (omega (arith, mul-le-mul h k))

pub +d_mono : (a b c d : Decimal) → a ≤d b → c ≤d d → a +d c ≤d b +d d
unfolding ◌+d◌
+d_mono a b c d h k =
    rw (pow-add b.places d.places, pow-add a.places c.places)
      (omega (
        arith,
        mul-le-mul h (le_refl (10 ^ c.places * 10 ^ d.places)),
        mul-le-mul k (le_refl (10 ^ a.places * 10 ^ b.places)),
      ))

-- Rounded quotients of the numbers `m / p` and `n / q`.
round_quotient_mono :
    (m p n q : ℕ) → 0 < p → 0 < q → m * q ≤ n * p → (2 * m + p) / (2 * p) ≤ (2 * n + q) / (2 * q)
round_quotient_mono m p n q hp hq h =
    let k = (2 * m + p) / (2 * p) in
    let below : k * (2 * p) ≤ 2 * m + p = omega (arith, mul-div-le (2 * m + p) (2 * p)) in
    let scaled : p * (k * (2 * q)) ≤ p * (2 * n + q) =
      omega (arith, mul-le-mul below (le_refl q), h) in
    (le-div_iff_mul-le (omega arith)).1 (le_of_mul-le-mul_left scaled hp)

pub round_mono : (a b : Decimal) → a ≤d b → round a ≤ round b
unfolding round
round_mono a b h =
    round_quotient_mono a.mantissa (10 ^ a.places) b.mantissa (10 ^ b.places) (ten_pow_pos a.places)
      (ten_pow_pos b.places) h
