-- ===== src/Infrastructure/Tests/Starts.antt =====
-- An environment with Redis and reCAPTCHA.
use interiors_api_client.Common.{true, false}
use interiors_api_client.Common.Exec.{Exec}
use interiors_api_client.Common.Json.{Json, num, str, bool}
use interiors_api_client.Infrastructure.Cache.{Client, set}
use interiors_api_client.Infrastructure.Cache.Values.{get_redis, set_redis}
use interiors_api_client.Infrastructure.Cache.Values.Kept.{IsKept, IsStore, get_redis-set_redis_iff}
use interiors_api_client.Common.{◌≡◌, ◌↔◌, refl, Option, none, some, List, [], ◌∷◌, if◌then◌else◌}
use interiors_api_client.Common.Text.{Text, text, text_eq, trim, to_lower_case}
use interiors_api_client.Common.Decimal.{decimal}
use interiors_api_client.Common.Exec.{ok}
use interiors_api_client.Infrastructure.Cache.{redis, get_strategy}
use interiors_api_client.Infrastructure.Cache.Clients.{Packages, init_redis, init_upstash}
use interiors_api_client.Infrastructure.Cache.Clients.Started.{HasClient, started-HasClient}
use interiors_api_client.Infrastructure.Recaptcha.{Number, finite, Recaptcha}
use interiors_api_client.Infrastructure.Recaptcha.Setup.{
  configure, fits_from, split_commas, host_names,
}
use interiors_api_client.Infrastructure.Recaptcha.Setup.Safe.{IsConfigured, configure-eq-ok_iff}

abbrev value_in : List (Text × Text) → Text → Option Text
value_in [] name = none
value_in ((k, v) ∷ vs) name = if text_eq k name then some v else value_in vs name

abbrev environment : Text → Option Text
environment = value_in (
    (text "CACHE_PROVIDER", text "Redis")
    ∷ (text "REDIS_HOST", text "localhost")
    ∷ (text "REDIS_PORT", text "6379")
    ∷ (text "RECAPTCHA_SECRET_KEY", text " key ")
    ∷ (text "RECAPTCHA_ALLOWED_HOSTNAMES", text "Site.org, my-site.co.in,,")
    ∷ [])

-- Each package makes its first client.
abbrev packages : Packages Text Text
packages = record { new_redis = λ c. ok (text "r"); new_upstash = λ u t. ok (text "u") }

chosen_redis : get_strategy (environment (text "CACHE_PROVIDER")) ≡ ok redis
unfolding get_strategy text_eq to_lower_case
chosen_redis = refl

redis_starts : (init_redis environment packages none).0 ≡ ok tt
unfolding init_redis text_eq to_lower_case
redis_starts = refl

upstash_starts : (init_upstash environment packages none).0 ≡ ok tt
unfolding init_upstash text_eq to_lower_case
upstash_starts = refl

started-HasClient_example :
    HasClient redis
      (init_redis environment packages none).1
      (init_upstash environment packages none).1
started-HasClient_example =
    started-HasClient environment packages redis chosen_redis redis_starts upstash_starts

-- Every score is read as a half.
abbrev half : Text → Number
half t = finite (decimal 5 1)

abbrev configured : Recaptcha
configured = record {
  secret = text "key";
  hostnames = text "site.org" ∷ text "my-site.co.in" ∷ [];
  min_score = decimal 5 1;
}

configure-eq-ok_iff_example :
    (configure half environment ≡ ok configured) ↔ IsConfigured half environment configured
configure-eq-ok_iff_example = configure-eq-ok_iff half environment configured

configured_runs : configure half environment ≡ ok configured
unfolding configure text_eq trim to_lower_case fits_from split_commas host_names
configured_runs = refl

-- A client that keeps the last text.
abbrev last_text : Client Text (Option Text)
last_text = record {
  set = λ k t e nx w. (ok true, some t);
  del = λ ks w. (ok tt, none);
  exists_key = λ k w. (ok 0, w);
  keys = λ p w. (ok [], w);
  incr = λ k w. (ok 1, w);
  expire = λ k n w. (ok tt, w);
}

abbrev last_get : Text → Exec (Option Text) (Option Text)
last_get k w = (ok w, w)

last_text-IsStore : IsStore last_text last_get
last_text-IsStore = record { stored = λ k t ttl nx w h. refl }

-- Only the texts `5` and `true` are JSON.
abbrev parse : Text → Option Json
parse t =
    if text_eq t (text "5")
    then some (num (text "5"))
    else if text_eq t (text "true")
    then some (bool true)
    else none

get_redis-set_redis_iff_example :
    ((get_redis parse last_get
        (text "k")
        (set_redis last_text (text "k") (str (text "5")) none false none).1).0
      ≡ ok (str (text "5")))
    ↔ IsKept parse (str (text "5"))
unfolding set_redis
get_redis-set_redis_iff_example =
    get_redis-set_redis_iff parse last_text last_get last_text-IsStore (text "k") (str (text "5"))
      none false none refl

-- The text comes back as a number.
five_misread :
    (get_redis parse last_get
      (text "k")
      (set_redis last_text (text "k") (str (text "5")) none false none).1).0
    ≡ ok (num (text "5"))
unfolding get_redis set_redis set text_eq
five_misread = refl
