-- ===== src/Infrastructure/Cache/Clients.antt =====
-- The clients of the cache (src/infrastructure/cache/providers): `RedisService` and `UpstashService`,
-- each of which has a client only if it is the active provider. The packages are parameters; the
-- listeners, which only write logs, and the options of the clients are left out.
pub mod Started
use interiors_api_client.Common.{Bool, true, false, Option, none, some, [], ◌∷◌, if◌then◌else◌}
use interiors_api_client.Common.Text.{Text, text, text_eq, to_lower_case}
use interiors_api_client.Common.Exception.{error}
use interiors_api_client.Common.Exec.{Exec, Result, ok, err, pure, throw}

-- How a client of Redis is connected.
pub data Connection : Type 0 where
  by_url : Text → Connection
  by_host : (host port : Text) → Connection

-- `ioredis` and `@upstash/redis`
pub record Packages (R U : Type 0) : Type 0 where
  pub new_redis : Connection → Result R
  pub new_upstash : (url token : Text) → Result U

-- `this.config.get("CACHE_PROVIDER")?.toLowerCase() === name`
abbrev pub is_active : Option Text → Text → Bool
is_active none name = false
is_active (some p) name = text_eq (to_lower_case p) name

-- A value that is given and not empty.
abbrev pub given : Option Text → Option Text
given none = none
given (some []) = none
given (some (c ∷ s)) = some (c ∷ s)

-- The URL where it is given, or both the host and the port.
abbrev pub connection_of : (url host port : Option Text) → Option Connection
connection_of (some u) host port = some (by_url u)
connection_of none (some h) (some p) = some (by_host h p)
connection_of none (some h) none = none
connection_of none none port = none

abbrev pub keep : {T : Type 0} → Result T → Exec (Option T) (Unit {0})
keep (ok t) s = (ok tt, some t)
keep (err e) s = (err e, s)

-- `getClient`
unfoldable pub get_client : {T : Type 0} → Exec (Option T) T
get_client (some t) = (ok t, some t)
get_client none = (err error, none)

module _ {R U : Type 0} (config : Text → Option Text) (lib : Packages R U) where
  abbrev pub connect_redis : Option Connection → Exec (Option R) (Unit {0})
  connect_redis none = throw error
  connect_redis (some c) = keep (lib.new_redis c)

  -- `RedisService.onModuleInit` and `initializeClient`
  unfoldable pub init_redis : Exec (Option R) (Unit {0})
  init_redis =
      if is_active (config (text "CACHE_PROVIDER")) (text "redis")
      then connect_redis (
          connection_of (given (config (text "REDIS_URL"))) (given (config (text "REDIS_HOST")))
            (given (config (text "REDIS_PORT"))))
      else pure tt

  abbrev pub connect_upstash : (url token : Option Text) → Exec (Option U) (Unit {0})
  connect_upstash (some url) (some token) = keep (lib.new_upstash url token)
  connect_upstash (some url) none = throw error
  connect_upstash none token = throw error

  -- `UpstashService.onModuleInit` and `initializeClient`
  unfoldable pub init_upstash : Exec (Option U) (Unit {0})
  init_upstash =
      if is_active (config (text "CACHE_PROVIDER")) (text "upstash")
      then connect_upstash (given (config (text "UPSTASH_REDIS_REST_URL")))
          (given (config (text "UPSTASH_REDIS_REST_TOKEN")))
      else pure tt
