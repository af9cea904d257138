-- ===== src/Infrastructure/Breakers/Registry.antt =====
-- The registry as a partial function from names to breakers, and what its methods do to them.
use interiors_api_client.Common.{◌≡◌, Bool, Option, none, some, true, false}
use interiors_api_client.Common.Text.{Text}
use interiors_api_client.Common.Exception.{not_found}
use interiors_api_client.Common.Exec.{ok, err}
use interiors_api_client.Infrastructure.Breakers.{
  Opossum, Stats, State, open_circuit, half_open_circuit, closed_circuit,
}
use interiors_api_client.Infrastructure.Breakers.Commands.{
  Command, get_or_create, find, stats, resetting, removing, resetting_all, shutting_down,
  shutting_down_application, Answer, the_stats,
}

module _ {B J W : Type 0} (lib : Opossum B J W) where
  -- The state that the stats of a breaker show.
  abbrev pub Shows : B → W → State → Type 0
  Shows b w open_circuit = lib.opened b w ≡ true
  Shows b w half_open_circuit = (lib.opened b w ≡ false) × (lib.half_open b w ≡ true)
  Shows b w closed_circuit = (lib.opened b w ≡ false) × (lib.half_open b w ≡ false)

  -- What a call does to the breakers themselves, for `m` the breaker of each name and `w` the outside
  -- before it, and `v` the outside after it.
  abbrev pub Affects : (B → W → Bool) → Command → W → (Text → Option B) → W → Type 0
  Affects is_shutdown (get_or_create name options) w m v = (b : B) → m name ≡ some b → v ≡ w
  Affects is_shutdown (find name) w m v = v ≡ w
  Affects is_shutdown (stats name) w m v = v ≡ w
  Affects is_shutdown (resetting name) w m v =
      ((b : B) → m name ≡ some b → lib.opened b v ≡ false) × (m name ≡ none → v ≡ w)
  Affects is_shutdown (removing name) w m v =
      ((b : B) → m name ≡ some b → is_shutdown b v ≡ true) × (m name ≡ none → v ≡ w)
  Affects is_shutdown resetting_all w m v =
      (k : Text) (b : B) → m k ≡ some b → lib.opened b v ≡ false
  Affects is_shutdown shutting_down w m v =
      (k : Text) (b : B) → m k ≡ some b → is_shutdown b v ≡ true
  Affects is_shutdown shutting_down_application w m v =
      (k : Text) (b : B) → m k ≡ some b → is_shutdown b v ≡ true

  -- What the stats of a name say, and that they are refused for a name without a breaker.
  abbrev pub Informs : Command → W → (Text → Option B) → Answer B J → Type 0
  Informs (stats name) w m a =
      (m name ≡ none → a ≡ the_stats (err not_found))
      × ((b : B)
          → m name ≡ some b
          → (r : Stats J) × (a ≡ the_stats (ok r))
            × (r.name ≡ name)
            × Shows b w r.state
            × (r.stats ≡ lib.to_json b w))
  Informs _ w m a = Unit

  -- What is relied on of the package: a breaker that is closed is not open, and one that is shut down
  -- stays so, whatever is done to the other breakers meanwhile.
  pub record IsOpossum (is_shutdown : B → W → Bool) : Type 0 where
    pub closes : (b : B) (w : W) → lib.opened b (lib.close b w) ≡ false
    pub stays_closed :
        (b c : B) (w : W) → lib.opened b w ≡ false → lib.opened b (lib.close c w) ≡ false
    pub shuts : (b : B) (w : W) → is_shutdown b (lib.shutdown b w) ≡ true
    pub stays_shut :
        (b c : B) (w : W) → is_shutdown b w ≡ true → is_shutdown b (lib.shutdown c w) ≡ true
