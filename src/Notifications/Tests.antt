-- ===== src/Notifications/Tests.antt =====
-- The pipeline on one email: the services answer, and the provider refuses it.
mod Tasks
mod Log
mod Mails
use interiors_api_client.Common.{
  ℕ, ◌+◌, ◌≡◌, ◌↔◌, ◌⊎◌, inl, refl, true, false, none, some, [], ◌++◌,
}
use interiors_api_client.Common.Text.{text, text_eq, text_le, print, trim, to_lower_case}
use interiors_api_client.Common.Json.{set_field, insert_field, stringify, str, end, field}
use interiors_api_client.Common.Exception.{
  domain, error, infrastructure, invalid_context, template_compile_failed,
}
use interiors_api_client.Common.Exec.{ok, err, pure, throw}
use interiors_api_client.Common.Exec.Throws.{Within, Throws}
use interiors_api_client.Notifications.Context.{Context, Recipient, Status, Provider, Services, Run}
use interiors_api_client.Notifications.Stages.Validate.{is_valid_email, validate}
use interiors_api_client.Notifications.Stages.Enrich.{global_data, enriched}
use interiors_api_client.Notifications.Stages.Deduplicate.{generate_fingerprint, acquire, protected}
use interiors_api_client.Notifications.Stages.RateLimit.{identifier_of, check_rate, limit_rate}
use interiors_api_client.Notifications.Stages.CompileTemplate.{compile}
use interiors_api_client.Notifications.Stages.Transport.{get_provider}
use interiors_api_client.Notifications.Pipeline.{execute}
use interiors_api_client.Notifications.Validation.{IsDeliverable, validate-IsDeliverable}
use interiors_api_client.Notifications.Address.{IsAddress, is_valid_email-IsAddress}
use interiors_api_client.Notifications.Reported.{
  IsReported, IsCache, IsTemplateFailure, compile-IsTemplateFailure, execute-IsReported,
}
use interiors_api_client.Notifications.Deduplication.{
  decision, closing, acquire-decision, protected_lem,
}
use interiors_api_client.Notifications.Retry.{sends, RefusesDelivery, limit_rate_reruns}
use interiors_api_client.Notifications.Delivery.{PassesChecks, execute-SendsTwice}

-- What is outside counts nothing; it only answers.
abbrev answering : {W : Type 0} → Services W
answering = record {
  cache_exists = λ k w. (ok false, w);
  cache_set = λ k v t nx w. (ok true, w);
  cache_delete = λ k w. (ok tt, w);
  cache_sliding_window = λ k n m w. (ok true, w);
  tracker_record_attempt = λ c w. (ok tt, w);
  tracker_record_result = λ c d w. (ok tt, w);
  fs_read_file = λ p w. (ok (text "Hello"), w);
  compile_template = λ source fs. ok source;
  provider_is_available = λ p w. (ok true, w);
  provider_send = λ p c w. (ok (record { status = Status.failed; provider = some p }), w);
  sha256 = λ s. s;
  config_get = λ k. none;
  now_iso = λ w. text "2025-01-01T00:00:00.000Z";
  full_year = λ w. 2025;
}

abbrev outside : Services ℕ
outside = answering

abbrev customer : Recipient
customer = record {
  email = some (text "ann@site.org");
  phone = none;
  device_token = none;
  name = some (text "Ann");
  user_id = none;
  customer_key = some (text "k1");
}

abbrev estimate : Context
estimate = record {
  notification_id = some (text "q1");
  trace_id = some (text "t1");
  type = some (text "EMAIL");
  priority = some (text "high");
  category = some (text "TRANSACTIONAL");
  recipient = some customer;
  subject = none;
  template_name = some (text "quote-estimate");
  template_data = some (field (text "name") (str (text "Ann")) end);
  metadata = record {
    enriched_at = none;
    environment = none;
    compiled_body = none;
    provider_used = none;
    result = none;
  };
}

abbrev start : Run ℕ
start = record { context = estimate; calls = []; services = 0 }

passes : PassesChecks outside
passes = record {
  unseen = λ key w. refl;
  locks = λ key value ttl w. refl;
  allows = λ key n m w. refl;
}

refuses : RefusesDelivery outside
unfolding get_provider text_eq
refuses = record {
  reads = λ path w. (_, refl);
  compiles = λ source d. (_, refl);
  attempts = λ c w. refl;
  results = λ c d w. refl;
  available = λ p w. refl;
  routes = (Provider.gmail, λ c email. rw email refl);
  refuses = λ p c w. (_, refl, refl);
}

estimate-IsDeliverable : IsDeliverable estimate
unfolding trim is_valid_email text_eq to_lower_case
estimate-IsDeliverable = (
  (_, refl, λ e. cc e),
  (
    (_, refl, λ e. cc e),
    (
      (_, refl, λ e. cc e),
      (
        (_, refl, λ e. cc e),
        (
          (_, refl, λ e. cc e),
          (
            (_, refl, λ e. cc e),
            (
              (λ e. cc e),
              (
                inl (_, refl, λ e. cc e),
                (
                  (_, refl, λ e. cc e),
                  (
                    (λ _. (_, refl, λ e. cc e)),
                    ((λ _. (_, refl, refl)), ((λ e. cc e), (λ e. cc e))),
                  ),
                ),
              ),
            ),
          ),
        ),
      ),
    ),
  ),
)

execute-SendsTwice_example :
    ((execute outside start).0 ≡ err (infrastructure template_compile_failed 500))
    × (sends (execute outside start).1.calls ≡ sends start.calls + 2)
unfolding generate_fingerprint enriched set_field global_data text_eq text_le to_lower_case
    insert_field stringify print
execute-SendsTwice_example =
    execute-SendsTwice outside passes refuses start customer _ estimate-IsDeliverable refl refl refl

outside-IsCache : IsCache outside
outside-IsCache = record {
  exists_foreign = λ k w. tt;
  set_foreign = λ k v t nx w. tt;
  window_foreign = λ k n t w. tt;
}

execute-IsReported_example : Within IsReported (execute outside start).0
execute-IsReported_example = execute-IsReported outside outside-IsCache start

validate-IsDeliverable_example :
    (IsDeliverable estimate × (validate (pure tt) start ≡ (ok tt, start)))
    ⊎ ((IsDeliverable estimate → ⊥)
        × (validate (pure tt) start ≡ (err (domain invalid_context), start)))
validate-IsDeliverable_example = validate-IsDeliverable (pure tt) start

is_valid_email-IsAddress_example :
    (is_valid_email (text "ann@site.org") ≡ true) ↔ IsAddress (text "ann@site.org")
is_valid_email-IsAddress_example = is_valid_email-IsAddress (text "ann@site.org")

abbrev acquired : Run ℕ
acquired = (acquire outside (text "d") (text "p") start).1

protected_lem_example :
    ((protected outside (throw error) (text "d") (text "p") start).0 ≡ err error)
    × ((protected outside (throw error) (text "d") (text "p") start).1.calls
        ≡ closing outside (text "d") (text "p") true (err error) ++ acquired.calls)
unfolding acquire
protected_lem_example =
    protected_lem outside (text "d") (text "p") (throw error) start acquired acquired true
      (err error) refl refl

abbrev admitted : Run ℕ
admitted = (check_rate outside (some customer) estimate start).1
