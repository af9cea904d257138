-- ===== src/Infrastructure/Sessions.antt =====
-- The sessions of the framework, kept in the cache (src/infrastructure/session/session.config.ts):
-- `CacheSessionStore`. The framework's callback is a parameter: it is given an exception, or a
-- session that may be missing.
pub mod Expiry
use interiors_api_client.Common.{ℕ, ◌/◌, ◌++◌, Option, none, some, false, if◌then◌else◌, ◌==◌}
use interiors_api_client.Common.Text.{Text, text}
use interiors_api_client.Common.Exception.{Exception}
use interiors_api_client.Common.Exec.{Exec, try_catch, ◌>>=◌, ◌>>◌}
use interiors_api_client.Infrastructure.Cache.{Client, set, delete}

-- `sessionData.cookie.originalMaxAge ? Math.floor(… / 1000) : 28800`
unfoldable pub ttl_of : Option ℕ → ℕ
ttl_of none = 28800
ttl_of (some max_age) = if max_age == 0 then 28800 else max_age / 1000

-- The prefix is the default one.
unfoldable pub session_key : Text → Text
session_key sid = text "sess:" ++ sid

module _ {V W : Type 0} (client : Client V W) (cache_get : Text → Exec W (Option V)) where
  abbrev pub Callback : Type 0
  Callback = Option Exception → Option V → Exec W (Unit {0})

  -- `get`
  unfoldable pub get_session : Text → Callback → Exec W (Unit {0})
  unfolding session_key
  get_session sid callback =
      try_catch (do found ← cache_get (session_key sid); callback none found)
        (λ e. callback (some e) none)

  -- `set`, for a session with this `originalMaxAge`
  unfoldable pub set_session : Option ℕ → Text → V → Callback → Exec W (Unit {0})
  unfolding ttl_of session_key set
  set_session max_age sid session callback =
      try_catch
        (do set client (session_key sid) session (some (ttl_of max_age)) false; callback none none)
        (λ e. callback (some e) none)

  -- `destroy`
  unfoldable pub destroy_session : Text → Callback → Exec W (Unit {0})
  unfolding session_key delete
  destroy_session sid callback =
      try_catch (do delete client (session_key sid); callback none none)
        (λ e. callback (some e) none)

  -- `touch`
  unfoldable pub touch_session : Option ℕ → Text → V → Callback → Exec W (Unit {0})
  unfolding ttl_of session_key set
  touch_session max_age sid session callback =
      try_catch
        (do set client (session_key sid) session (some (ttl_of max_age)) false; callback none none)
        (λ e. callback (some e) none)
