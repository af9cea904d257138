-- ===== src/Infrastructure/Cache/Values.antt =====
-- The values of Redis (src/infrastructure/cache/providers/redis/redis.strategy.ts): how `set` writes a
-- value and how `get` reads it. `JSON.parse` is a parameter, as is the client.
pub mod Kept
use interiors_api_client.Common.{ℕ, Bool, Option, none, some, [], ◌∷◌}
use interiors_api_client.Common.Text.{Text}
use interiors_api_client.Common.Json.{Json, null, str, stringify}
use interiors_api_client.Common.Exec.{Exec, pure, ◌>>=◌}
use interiors_api_client.Infrastructure.Cache.{Client, set}

-- `typeof value === "object" ? JSON.stringify(value) : String(value)`; of a number and a Boolean both
-- are the same text.
abbrev pub string_value : Json → Text
string_value (str t) = t
string_value v = stringify v

-- `try { return JSON.parse(data) } catch { return data }`
abbrev pub parsed_or : Text → Option Json → Json
parsed_or t none = str t
parsed_or t (some v) = v

module _ (parse : Text → Option Json) where
  -- What `get` makes of the data.
  abbrev pub read_value : Option Text → Json
  read_value none = null
  read_value (some []) = null
  read_value (some (c ∷ t)) = parsed_or (c ∷ t) (parse (c ∷ t))

  -- `get`
  unfoldable pub get_redis : {W : Type 0} → (Text → Exec W (Option Text)) → Text → Exec W Json
  get_redis client_get key = do text_of ← client_get key; pure (read_value text_of)

-- `set`
unfoldable pub set_redis :
    {W : Type 0} → Client Text W → Text → Json → Option ℕ → Bool → Exec W Bool
unfolding set
set_redis client key value ttl nx = set client key (string_value value) ttl nx
