-- ===== src/Quotes/Tests/Limits.antt =====
-- Services whose rate limits are those of Redis.
use interiors_api_client.Common.{ℕ, ◌≡◌, refl, [], ◌∷◌}
use interiors_api_client.Common.Text.{text}
use interiors_api_client.Common.Exception.{error, service_unavailable}
use interiors_api_client.Common.Exec.{err}
use interiors_api_client.Infrastructure.Cache.{sliding_window, token_bucket, rate_limit_redis}
use interiors_api_client.Quotes.Desk.{global, ip, Services}
use interiors_api_client.Quotes.Service.{create_quote_request}
use interiors_api_client.Quotes.Redis.{IsRedis, create_quote_request-unavailable}
use interiors_api_client.Quotes.Tests.{outside, request, payload, start}

abbrev on_redis : Services ℕ
on_redis = record outside {
  breaker_fire = λ l op. op;
  token_bucket = λ k n t m. rate_limit_redis k (token_bucket n t m);
  sliding_window = λ k n t. rate_limit_redis k (sliding_window n t);
}

on_redis-IsRedis : IsRedis on_redis
on_redis-IsRedis = record {
  slides = λ k n t. refl;
  drips = λ k n t m. refl;
  rejects = λ l op h w. (error, h w, refl);
}

create_quote_request-unavailable_example :
    (create_quote_request on_redis
      (global ∷ ip ∷ [])
      request
      payload
      (text "10.0.0.1")
      (text "key")
      start).0
    ≡ err service_unavailable
create_quote_request-unavailable_example =
    create_quote_request-unavailable on_redis on_redis-IsRedis global (ip ∷ []) request payload
      (text "10.0.0.1") (text "key") start refl
