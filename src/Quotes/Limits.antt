-- ===== src/Quotes/Limits.antt =====
-- `QuoteRequestRateLimiter` (src/infrastructure/cache/rate-limiters and cache/config).
use interiors_api_client.Common.{
  ℕ, ◌*◌, Bool, true, false, ◌&&◌, none, some, List, [], ◌∷◌, ◌++◌, leb, if◌then◌else◌,
}
use interiors_api_client.Common.Text.{Text, text, trim, to_lower_case}
use interiors_api_client.Common.Exception.{
  ErrorCode, Exception, rate_limit, service_unavailable, rate_limit_ip_exceeded,
  rate_limit_email_exceeded, rate_limit_phone_exceeded, rate_limit_global_exceeded,
}
use interiors_api_client.Common.Exec.{Result, ok, err, Exec, pure, throw, try_catch, ◌>>=◌, ◌>>◌}
use interiors_api_client.Quotes.Desk.{Layer, ip, email, phone, global, Desk, Services, invoke, fire}

-- `RATE_LIMIT_CONFIG.quote`: requests and seconds.
abbrev pub max_requests : Layer → ℕ
max_requests ip = 200
max_requests email = 10
max_requests phone = 3
max_requests global = 1000

abbrev pub window_seconds : Layer → ℕ
window_seconds ip = 480
window_seconds email = 600
window_seconds phone = 3600
window_seconds global = 60

abbrev pub code_of : Layer → ErrorCode
code_of ip = rate_limit_ip_exceeded
code_of email = rate_limit_email_exceeded
code_of phone = rate_limit_phone_exceeded
code_of global = rate_limit_global_exceeded

abbrev is_digit : ℕ → Bool
is_digit c = leb 48 c && leb c 57

-- `phone.replace(/\D/g, "")`
unfoldable pub normalize_phone : Text → Text
normalize_phone [] = []
normalize_phone (c ∷ s) = let rest = normalize_phone s in if is_digit c then c ∷ rest else rest

-- `email.toLowerCase().trim()`
unfoldable pub normalize_email : Text → Text
normalize_email s = trim (to_lower_case s)

abbrev pub fail_open : Bool
fail_open = false

-- `error instanceof RateLimitException || error instanceof ServiceUnavailableException`
abbrev pub passes_through : Exception → Bool
passes_through (rate_limit code) = true
passes_through service_unavailable = true
passes_through _ = false

abbrev pub choose : {A : Type 0} → A → A → A → A → Layer → A
choose a b c d ip = a
choose a b c d email = b
choose a b c d phone = c
choose a b c d global = d

-- `Promise.all`: the first rejection, in the order in which the promises settle.
abbrev pub or_next : Result (Unit {0}) → Result (Unit {0}) → Result (Unit {0})
or_next (ok u) later = later
or_next (err e) later = err e

unfoldable pub first_rejection : (Layer → Result (Unit {0})) → List Layer → Result (Unit {0})
first_rejection results [] = ok tt
first_rejection results (l ∷ ls) =
    let later = first_rejection results ls in or_next (results l) later

module _ {W : Type 0} (services : Services W) where
  open services use {breaker_fire, token_bucket, sliding_window, hmac, env, config}

  pub secret : Text
  secret = elim (config (text "RATE_LIMIT_HMAC_SECRET")) [ none ↦ [] | some s ↦ s ]

  -- `CACHE_KEYS`, with the address, the hash, or nothing behind it
  unfoldable pub limit_key : Layer → Text → Text
  unfolding secret normalize_email normalize_phone
  limit_key ip client_ip = text "ratelimit:quote:ip:" ++ client_ip
  limit_key email address =
      text "ratelimit:quote:identity:" ++ hmac secret (normalize_email address)
  limit_key phone number = text "ratelimit:quote:phone:" ++ hmac secret (normalize_phone number)
  limit_key global _ = text "ratelimit:quote:global"

  unfoldable pub operation : Layer → Text → Exec W Bool
  operation ip key = token_bucket key (max_requests ip) (window_seconds ip) (max_requests ip * 2)
  operation email key = sliding_window key (max_requests email) (window_seconds email)
  operation phone key = sliding_window key (max_requests phone) (window_seconds phone)
  operation global key =
      token_bucket key (max_requests global) (window_seconds global) (max_requests global * 2)

  abbrev pub handle_circuit_open : Exec (Desk W) (Unit {0})
  handle_circuit_open = if fail_open then pure tt else throw service_unavailable

  abbrev pub on_failure : Exception → Exec (Desk W) Bool
  on_failure e = if passes_through e then throw e else handle_circuit_open >> pure true

  unfoldable pub execute_with_circuit_breaker : Layer → Exec W Bool → Exec (Desk W) Bool
  execute_with_circuit_breaker layer op =
      try_catch (invoke (fire layer) (breaker_fire layer op)) on_failure

  abbrev pub refuse_unless : ErrorCode → Bool → Exec (Desk W) (Unit {0})
  refuse_unless code true = pure tt
  refuse_unless code false = throw (rate_limit code)

  -- `checkIpLimit`, `checkEmailLimit`, `checkPhoneLimit` and `checkGlobalLimit`
  unfoldable pub check_layer : Layer → Text → Exec (Desk W) (Unit {0})
  unfolding execute_with_circuit_breaker limit_key operation
  check_layer layer subject = do
    allowed ← execute_with_circuit_breaker layer (operation layer (limit_key layer subject))
    refuse_unless (code_of layer) allowed

  -- Each check is started, whatever the others give.
  unfoldable pub check_each : (Layer → Text) → Desk W → (Layer → Result (Unit {0})) × Desk W
  unfolding check_layer
  check_each subject s =
      let (a, s1) = check_layer ip (subject ip) s in
      let (b, s2) = check_layer email (subject email) s1 in
      let (c, s3) = check_layer phone (subject phone) s2 in
      let (d, s4) = check_layer global (subject global) s3 in (choose a b c d, s4)

  abbrev pub subject_of : (email_address phone_number client_ip : Text) → Layer → Text
  subject_of e p i ip = i
  subject_of e p i email = e
  subject_of e p i phone = p
  subject_of e p i global = []

  -- `check`: the layers settle in an order that the run decides.
  unfoldable pub check :
      List Layer → (email_address phone_number client_ip : Text) → Exec (Desk W) (Unit {0})
  unfolding check_each first_rejection
  check order e p i s =
      let (results, s') = check_each (subject_of e p i) s in (first_rejection results order, s')
