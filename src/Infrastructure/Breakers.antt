-- ===== src/Infrastructure/Breakers.antt =====
-- The registry of circuit breakers (src/infrastructure/resilience/circuit-breaker.factory.ts):
-- `CircuitBreakerFactory`. A breaker is a value of the third-party package, which is a parameter:
-- closing it or shutting it down changes the outside.
pub mod Commands
pub mod Registry
pub mod Once
use interiors_api_client.Common.{
  ℕ, Bool, true, false, Option, none, some, List, [], ◌∷◌, ◌++◌, map, if◌then◌else◌,
}
use interiors_api_client.Common.Text.{Text, text_eq}
use interiors_api_client.Common.Exception.{not_found}
use interiors_api_client.Common.Exec.{Result, ok, err}

-- `CircuitBreakerOptions`, without the filter of errors.
pub record Options : Type 0 where
  pub timeout : Option ℕ
  pub error_threshold_percentage : Option ℕ
  pub reset_timeout : Option ℕ
  pub rolling_count_timeout : Option ℕ
  pub rolling_count_buckets : Option ℕ
  pub capacity : Option ℕ
  pub volume_threshold : Option ℕ

-- What `new CircuitBreaker` is given.
pub record Settings : Type 0 where
  pub timeout : ℕ
  pub error_threshold_percentage : ℕ
  pub reset_timeout : ℕ
  pub rolling_count_timeout : ℕ
  pub rolling_count_buckets : ℕ
  pub capacity : Option ℕ
  pub volume_threshold : ℕ
  pub name : Text

abbrev pub or_default : Option ℕ → ℕ → ℕ
or_default none d = d
or_default (some n) d = n

unfoldable pub settings_of : Text → Options → Settings
settings_of name o = record {
  timeout = or_default o.timeout 3000;
  error_threshold_percentage = or_default o.error_threshold_percentage 50;
  reset_timeout = or_default o.reset_timeout 30000;
  rolling_count_timeout = or_default o.rolling_count_timeout 10000;
  rolling_count_buckets = or_default o.rolling_count_buckets 10;
  capacity = o.capacity;
  volume_threshold = or_default o.volume_threshold 2;
  name = name;
}

-- What is used of the package: `J` is what a breaker's counts are shown as.
pub record Opossum (B J W : Type 0) : Type 0 where
  pub make : Settings → W → B × W
  pub close : B → W → W
  pub shutdown : B → W → W
  pub opened : B → W → Bool
  pub half_open : B → W → Bool
  pub to_json : B → W → J

pub record Factory (B W : Type 0) : Type 0 where
  pub breakers : List (Text × B)
  pub outside : W

pub data State : Type 0 where
  open_circuit half_open_circuit closed_circuit : State

pub record Stats (J : Type 0) : Type 0 where
  pub name : Text
  pub state : State
  pub stats : J

-- A `Map` by its entries, in the order of insertion.
module _ {B : Type 0} where
  -- `map.get(name)`
  unfoldable pub get : Text → List (Text × B) → Option B
  get name [] = none
  get name ((n, b) ∷ m) = if text_eq n name then some b else get name m

  -- `map.set(name, breaker)`
  unfoldable pub set : Text → B → List (Text × B) → List (Text × B)
  set name b [] = (name, b) ∷ []
  set name b ((n, c) ∷ m) = if text_eq n name then (n, b) ∷ m else (n, c) ∷ set name b m

  -- `map.delete(name)`
  unfoldable pub delete : Text → List (Text × B) → List (Text × B)
  delete name [] = []
  delete name ((n, b) ∷ m) =
      let rest = delete name m in if text_eq n name then rest else (n, b) ∷ rest

module _ {B J W : Type 0} (lib : Opossum B J W) where
  -- `createBreaker`; the listeners only write logs.
  unfoldable pub create_breaker : Text → Options → W → B × W
  unfolding settings_of
  create_breaker name options w = lib.make (settings_of name options) w

  abbrev pub keep_or_make : Text → Options → Factory B W → Option B → B × Factory B W
  keep_or_make name options f (some b) = (b, f)
  keep_or_make name options f none =
      let (b, w) = create_breaker name options f.outside in
      (b, record { breakers = set name b f.breakers; outside = w })

  -- `getOrCreateBreaker`
  unfoldable pub get_or_create_breaker : Text → Options → Factory B W → B × Factory B W
  unfolding get set create_breaker
  get_or_create_breaker name options f = keep_or_make name options f (get name f.breakers)

  -- `findBreaker`
  unfoldable pub find_breaker : Text → Factory B W → Option B
  unfolding get
  find_breaker name f = get name f.breakers

  abbrev pub state_of : B → W → State
  state_of b w =
      if lib.opened b w
      then open_circuit
      else if lib.half_open b w
      then half_open_circuit
      else closed_circuit

  abbrev pub stats_of : W → Text × B → Stats J
  stats_of w (name, b) = record { name = name; state = state_of b w; stats = lib.to_json b w }

  -- `getAllStats`
  unfoldable pub get_all_stats : Factory B W → List (Stats J)
  get_all_stats f = map (stats_of f.outside) f.breakers

  abbrev pub stats_or_throw : Text → W → Option B → Result (Stats J)
  stats_or_throw name w none = err not_found
  stats_or_throw name w (some b) = ok (stats_of w (name, b))

  -- `getStats`
  unfoldable pub get_stats : Text → Factory B W → Result (Stats J)
  unfolding get
  get_stats name f = stats_or_throw name f.outside (get name f.breakers)

  -- `this.breakers.forEach`
  unfoldable pub each : (B → W → W) → List (Text × B) → W → W
  each act [] w = w
  each act ((n, b) ∷ m) w = each act m (act b w)

  -- `resetAll`
  unfoldable pub reset_all : Factory B W → Factory B W
  unfolding each
  reset_all f = record f { outside = each lib.close f.breakers f.outside }

  abbrev pub reset_found : Factory B W → Option B → Bool × Factory B W
  reset_found f none = (false, f)
  reset_found f (some b) = (true, record f { outside = lib.close b f.outside })

  -- `reset`
  unfoldable pub reset : Text → Factory B W → Bool × Factory B W
  unfolding get
  reset name f = reset_found f (get name f.breakers)

  abbrev pub remove_found : Text → Factory B W → Option B → Bool × Factory B W
  remove_found name f none = (false, f)
  remove_found name f (some b) =
      (true, record { breakers = delete name f.breakers; outside = lib.shutdown b f.outside })

  -- `remove`
  unfoldable pub remove : Text → Factory B W → Bool × Factory B W
  unfolding get delete
  remove name f = remove_found name f (get name f.breakers)

  -- `shutdownAll`
  unfoldable pub shutdown_all : Factory B W → Factory B W
  unfolding each
  shutdown_all f = record { breakers = []; outside = each lib.shutdown f.breakers f.outside }

  -- `onApplicationShutdown`: the entries stay.
  unfoldable pub on_application_shutdown : Factory B W → Factory B W
  unfolding each
  on_application_shutdown f = record f { outside = each lib.shutdown f.breakers f.outside }
