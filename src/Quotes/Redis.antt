-- ===== src/Quotes/Redis.antt =====
-- The rate limiter of quotes over the strategy of Redis, whose rate limits are not implemented.
use interiors_api_client.Common.{◌≡◌, refl, Bool, false, List, ◌∷◌, ℕ}
use interiors_api_client.Common.Text.{Text}
use interiors_api_client.Common.Exception.{Exception, error, service_unavailable}
use interiors_api_client.Common.Exec.{Exec, err}
use interiors_api_client.Infrastructure.Cache.{sliding_window, token_bucket, rate_limit_redis}
use interiors_api_client.Quotes.Desk.{Layer, ip, email, phone, global, Desk, Services}
use interiors_api_client.Common.{false, is_empty}
use interiors_api_client.Common.Json.{Json}
use interiors_api_client.Quotes.Request.{Request}
use interiors_api_client.Quotes.Service.{create_quote_request}
use interiors_api_client.Quotes.Limits.{
  passes_through, operation, limit_key, execute_with_circuit_breaker, check_layer, check_each,
  subject_of, first_rejection, check,
}

-- The limits of the services are those of `RedisStrategy`, and a breaker whose operation throws
-- rejects, with an exception that is none of the two that the limiter passes through.
pub record IsRedis {W : Type 0} (services : Services W) : Type 0 where
  pub slides :
      (k : Text) (n t : ℕ) → services.sliding_window k n t ≡ rate_limit_redis k (sliding_window n t)
  pub drips :
      (k : Text) (n t m : ℕ)
      → services.token_bucket k n t m ≡ rate_limit_redis k (token_bucket n t m)
  pub rejects :
      (l : Layer) (op : Exec W Bool)
      → ((w : W) → (op w).0 ≡ err error)
      → (w : W)
      → (e : Exception) × ((services.breaker_fire l op w).0 ≡ err e) × (passes_through e ≡ false)

module _ {W : Type 0} (services : Services W) (redis : IsRedis services) where
  operation-throws : (l : Layer) (k : Text) (w : W) → (operation services l k w).0 ≡ err error
  unfolding operation rate_limit_redis
  operation-throws ip k w = rw (redis.drips k 200 480 400) refl
  operation-throws email k w = rw (redis.slides k 10 600) refl
  operation-throws phone k w = rw (redis.slides k 3 3600) refl
  operation-throws global k w = rw (redis.drips k 1000 60 2000) refl

  check_layer-unavailable :
      (l : Layer) (x : Text) (s : Desk W) → (check_layer services l x s).0 ≡ err service_unavailable
  unfolding check_layer execute_with_circuit_breaker
  check_layer-unavailable l x s =
      let k = limit_key services l x in
      let (e, rejected, foreign) =
        redis.rejects l (operation services l k) (operation-throws l k) s.outside in
      rw (rejected, foreign) refl

  results_of :
      (subject : Layer → Text) (s : Desk W) (l : Layer)
      → (check_each services subject s).0 l ≡ err service_unavailable
  unfolding check_each
  results_of subject s ip = check_layer-unavailable ip (subject ip) s
  results_of subject s email =
      check_layer-unavailable email (subject email) (check_layer services ip (subject ip) s).1
  results_of subject s phone =
      let s1 = (check_layer services ip (subject ip) s).1 in
      check_layer-unavailable phone (subject phone)
        (check_layer services email (subject email) s1).1
  results_of subject s global =
      let s1 = (check_layer services ip (subject ip) s).1 in
      let s2 = (check_layer services email (subject email) s1).1 in
      check_layer-unavailable global (subject global)
        (check_layer services phone (subject phone) s2).1

  -- Over the strategy of Redis the limiter refuses every request as unavailable, whichever of its
  -- layers settles first.
  pub check-unavailable :
      (first : Layer) (others : List Layer) (address number client_ip : Text) (s : Desk W)
      → (check services (first ∷ others) address number client_ip s).0 ≡ err service_unavailable
  unfolding check first_rejection
  check-unavailable first others address number client_ip s =
      rw (results_of (subject_of services address number client_ip) s first) refl

  -- Over the strategy of Redis no quote is submitted: every request with a key ends as unavailable.
  pub create_quote_request-unavailable :
      (first : Layer) (others : List Layer) (r : Request) (payload : Json) (client_ip key : Text)
      (s : Desk W)
      → is_empty key ≡ false
      → (create_quote_request services (first ∷ others) r payload client_ip key s).0
        ≡ err service_unavailable
  unfolding create_quote_request
  create_quote_request-unavailable first others r payload client_ip key s given =
      rw (given, check-unavailable first others r.email r.phone client_ip s) refl
