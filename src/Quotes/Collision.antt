-- ===== src/Quotes/Collision.antt =====
-- What the fingerprint of a quote leaves out.
use interiors_api_client.Common.{ℕ, suc, ◌-◌, ◌+◌, ◌*◌, ◌<◌, ◌≡◌, refl, some, arith}
use interiors_api_client.Common.Text.{Text}
use interiors_api_client.Common.Decimal.{Decimal, ◌*d◌}
use interiors_api_client.Common.Exec.{ok}
use interiors_api_client.Quotes.Request.{Rooms, FullHome, of_full_home, Request}
use interiors_api_client.Quotes.Normalize.{normalize_quote_data, specifications_key, full_home_key}
use interiors_api_client.Quotes.Pricing.FullHome

-- The home with another number of bathrooms.
abbrev pub with_bathrooms : FullHome → Rooms → ℕ → FullHome
with_bathrooms c rooms n = record {
  bhk_type = c.bhk_type;
  builtup_area = c.builtup_area;
  package_name = c.package_name;
  rooms = some (record rooms { bathroom = n });
}

abbrev pub with_home : Request → FullHome → Request
with_home q c = record {
  configuration = of_full_home c;
  name = q.name;
  phone = q.phone;
  email = q.email;
  location = q.location;
  recaptcha_token = q.recaptcha_token;
}

scaled_lt : (a b k : ℕ) → a < b → 0 < k → a * k < b * k
scaled_lt a b k h p = rw (b_eq, k_eq) (by_atoms a (b - suc a) (k - 1))
  where
    b_eq : b ≡ suc (a + (b - suc a))
    b_eq = omega arith

    k_eq : k ≡ suc (k - 1)
    k_eq = omega arith

    by_atoms : (a d j : ℕ) → a * suc j < suc (a + d) * suc j
    by_atoms a d j = omega arith

area_multiplier-positive : (area : Text) → 0 < (FullHome.area_multiplier area).mantissa
unfolding FullHome.area_multiplier
area_multiplier-positive area = ground arith

package_multiplier-positive : (p : Text) → 0 < (FullHome.package_multiplier p).mantissa
unfolding FullHome.package_multiplier
package_multiplier-positive p = ground arith

-- The rooms with another number of bathrooms.
abbrev bathrooms : Rooms → ℕ → Rooms
bathrooms rooms n = record rooms { bathroom = n }

room_cost-bathrooms :
    (rooms : Rooms) (n m : ℕ)
    → n < m
    → FullHome.room_cost (bathrooms rooms n) < FullHome.room_cost (bathrooms rooms m)
unfolding FullHome.room_cost
room_cost-bathrooms rooms n m h = omega arith

-- Two requests for a full home that differ in the number of bathrooms only are normalized to the
-- same data, while the one with more bathrooms is estimated to cost strictly more; both are priced.
pub normalize_quote_data-bathrooms :
    (q : Request) (c : FullHome) (rooms : Rooms) (n m : ℕ)
    → n < m
    → (normalize_quote_data (with_home q (with_bathrooms c rooms n))
        ≡ normalize_quote_data (with_home q (with_bathrooms c rooms m)))
      × (d : Decimal) × (e : Decimal) × (FullHome.calculate_estimate
            (of_full_home (with_bathrooms c rooms n))
          ≡ ok d)
      × (FullHome.calculate_estimate (of_full_home (with_bathrooms c rooms m)) ≡ ok e)
      × (d.places ≡ e.places)
      × (d.mantissa < e.mantissa)
unfolding normalize_quote_data specifications_key full_home_key FullHome.calculate_estimate
    FullHome.estimate ◌*d◌
normalize_quote_data-bathrooms q c rooms n m h = (
  refl,
  FullHome.estimate (with_bathrooms c rooms n) (bathrooms rooms n),
  FullHome.estimate (with_bathrooms c rooms m) (bathrooms rooms m),
  refl,
  refl,
  refl,
  scaled_lt _ _ _
      (scaled_lt _ _ _ (omega (arith, room_cost-bathrooms rooms n m h))
        (area_multiplier-positive c.builtup_area))
      (package_multiplier-positive c.package_name),
)
