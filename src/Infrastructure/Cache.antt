-- ===== src/Infrastructure/Cache.antt =====
-- The cache (src/infrastructure/cache): `CacheFactory`, and of `RedisStrategy` and `UpstashStrategy`
-- the operations on keys and the rate limiters. The clients are parameters over the outside; a
-- value is what the client is given for it.
pub mod Limiters
pub mod Clients
pub mod Values
use interiors_api_client.Common.{
  ℕ, ◌<◌, Bool, true, false, not, ◌&&◌, Option, none, some, List, [], ◌∷◌, ◌++◌, if◌then◌else◌, ltb,
  ◌==◌, is_empty,
}
use interiors_api_client.Common.Text.{Text, text, text_eq, print, to_lower_case}
use interiors_api_client.Common.Exception.{error}
use interiors_api_client.Common.Exec.{
  Exec, Result, ok, err, pure, throw, lift, gets, modify, when, ◌>>=◌, ◌>>◌,
}

-- The commands of the clients that the strategies call: `set` with its time to live and with `NX`,
-- which says whether the client answered `OK`.
pub record Client (V W : Type 0) : Type 0 where
  pub set : Text → V → Option ℕ → Bool → Exec W Bool
  pub del : List Text → Exec W (Unit {0})
  pub exists_key : Text → Exec W ℕ
  pub keys : Text → Exec W (List Text)
  pub incr : Text → Exec W ℕ
  pub expire : Text → ℕ → Exec W (Unit {0})

-- `ttl` as a condition: neither absent nor 0.
abbrev pub given_ttl : Option ℕ → Option ℕ
given_ttl none = none
given_ttl (some n) = if n == 0 then none else some n

-- `if (count === 1 && ttl)`
abbrev pub first_expiry : ℕ → Option ℕ → Option ℕ
first_expiry count ttl = if count == 1 then given_ttl ttl else none

abbrev pub when_some : {A S : Type 0} → Option A → (A → Exec S (Unit {0})) → Exec S (Unit {0})
when_some none f = pure tt
when_some (some a) f = f a

module _ {V W : Type 0} (client : Client V W) where
  -- `set`: the four calls of the source are one command with its two options.
  unfoldable pub set : Text → V → Option ℕ → Bool → Exec W Bool
  set key value ttl nx = client.set key value (given_ttl ttl) nx

  -- `delete`
  unfoldable pub delete : Text → Exec W (Unit {0})
  delete key = client.del (key ∷ [])

  -- `RedisStrategy.exists`
  unfoldable pub exists : Text → Exec W Bool
  exists key = do n ← client.exists_key key; pure (ltb 0 n)

  -- `UpstashStrategy.exists`
  unfoldable pub exists_upstash : Text → Exec W Bool
  exists_upstash key = do n ← client.exists_key key; pure (n == 1)

  -- `clear`
  unfoldable pub clear : Text → Exec W (Unit {0})
  clear pattern_text = do
    found ← client.keys pattern_text
    when (not (is_empty found)) (client.del found)

  -- `UpstashStrategy.increment`
  unfoldable pub increment : Text → Option ℕ → Exec W ℕ
  increment key ttl = do
    count ← client.incr key
    when_some (first_expiry count ttl) (λ n. client.expire key n)
    pure count

  -- `RedisStrategy.increment`: the expiry is not awaited, so a failure of it is not seen.
  unfoldable pub increment_redis : Text → Option ℕ → Exec W ℕ
  increment_redis key ttl = do
    count ← client.incr key
    when_some (first_expiry count ttl) (λ n s. (ok tt, (client.expire key n s).1))
    pure count

-- What a limiter of `@upstash/ratelimit` is made with.
pub data Limit : Type 0 where
  sliding_window : (limit window_seconds : ℕ) → Limit
  token_bucket : (refill_rate interval_seconds max_tokens : ℕ) → Limit

-- The package: a limiter `L` is made once, and then asked for each key.
pub record Ratelimit (L W : Type 0) : Type 0 where
  pub make : Limit → L
  pub limit : L → Text → Exec W Bool

-- `UpstashStrategy` and the outside.
pub record Strategy (L W : Type 0) : Type 0 where
  pub rate_limiters : List (Text × L)
  pub outside : W

-- `limiterKey` of the two methods
unfoldable pub limiter_key : Limit → Text
limiter_key (sliding_window limit window) = print limit ++ (text ":" ++ print window)
limiter_key (token_bucket rate interval tokens) =
    text "tokenBucket:"
    ++ (print rate ++ (text ":" ++ (print interval ++ (text ":" ++ print tokens))))

module _ {L : Type 0} where
  -- `this.rateLimiters.get(limiterKey)`
  unfoldable pub find_limiter : Text → List (Text × L) → Option L
  find_limiter key [] = none
  find_limiter key ((k, l) ∷ m) = if text_eq k key then some l else find_limiter key m

module _ {L W : Type 0} (lib : Ratelimit L W) where
  abbrev pub keep_or_make : Limit → List (Text × L) → Option L → L × List (Text × L)
  keep_or_make c m (some l) = (l, m)
  keep_or_make c m none = (lib.make c, (limiter_key c, lib.make c) ∷ m)

  -- The limiter for the parameters, kept under their key.
  unfoldable pub limiter_for : Limit → List (Text × L) → L × List (Text × L)
  unfolding find_limiter
  limiter_for c m = keep_or_make c m (find_limiter (limiter_key c) m)

  -- `slidingWindowRateLimit` and `tokenBucketRateLimit`
  unfoldable pub rate_limit : Text → Limit → Exec (Strategy L W) Bool
  unfolding limiter_for
  rate_limit key c s =
      let (l, m) = limiter_for c s.rate_limiters in
      let (r, w) = lib.limit l key s.outside in (r, record { rate_limiters = m; outside = w })

-- `RedisStrategy.slidingWindowRateLimit` and `tokenBucketRateLimit`: "Method not implemented."
unfoldable pub rate_limit_redis : {S : Type 0} → Text → Limit → Exec S Bool
rate_limit_redis key c = throw error

pub data Provider : Type 0 where
  upstash redis : Provider

-- `CacheFactory.getStrategy`, for the value of `CACHE_PROVIDER`
unfoldable pub get_strategy : Option Text → Result Provider
get_strategy none = err error
get_strategy (some value) =
    let provider = to_lower_case value in
    if text_eq provider (text "upstash")
    then ok upstash
    else if text_eq provider (text "redis")
    then ok redis
    else err error
