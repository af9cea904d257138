-- ===== src/Quotes/Idempotency.antt =====
-- `IdempotencyService` (src/infrastructure/idempotency), on the records of quote submissions. The
-- time at which a record expires is left out.
use interiors_api_client.Common.{Bool, true, false, not, Option, none, some, ◌==◌, if◌then◌else◌}
use interiors_api_client.Common.Text.{Text, text, text_eq, trim, to_lower_case}
use interiors_api_client.Common.Json.{Json, ordered, stringify}
use interiors_api_client.Common.Exception.{Exception, conflict, service_unavailable, driver}
use interiors_api_client.Common.Exec.{Exec, pure, throw, when, try_catch, ◌>>=◌, ◌>>◌}
use interiors_api_client.Quotes.Desk.{
  Identity, Record, RecordStatus, processing, completed, Response, Desk, Services, invoke, env_or,
  records_find_one, records_create, records_update_one,
}

-- `IdempotencyContext`
pub record IdempotencyContext : Type 0 where
  pub caller : Text
  pub operation : Text
  pub key : Text
  pub request : Json

-- `stableStringify`
unfoldable pub stable_stringify : Json → Text
unfolding ordered stringify
stable_stringify v = stringify (ordered v)

abbrev pub is_completed : RecordStatus → Bool
is_completed completed = true
is_completed processing = false

module _ {W : Type 0} (services : Services W) where
  open services use {record_find, record_create, record_update, sha256, hmac, env}

  unfoldable pub fingerprint : Json → Text
  unfolding stable_stringify
  fingerprint v = sha256 (stable_stringify v)

  -- `process.env.IDEMPOTENCY_SECRET || process.env.CUSTOMER_KEY_SECRET || "default_secret"`
  abbrev pub secret : Text
  secret =
      env_or (env (text "IDEMPOTENCY_SECRET"))
        (env_or (env (text "CUSTOMER_KEY_SECRET")) (text "default_secret"))

  unfoldable pub identity : IdempotencyContext → Identity
  identity c = record {
    scope = hmac secret (to_lower_case (trim c.caller));
    operation = c.operation;
    key = c.key;
  }

  abbrev pub mismatch : Exception
  mismatch = conflict (text "Idempotency-Key was already used with different request data.")

  abbrev pub still_processing : Exception
  still_processing = conflict (text "A request with this idempotency key is still processing.")

  abbrev pub already_processing : Exception
  already_processing = conflict (text "A request with this idempotency key is already processing.")

  -- `assertSamePayload`
  unfoldable pub assert_same_payload : Text → Json → Exec (Desk W) (Unit {0})
  assert_same_payload existing request =
      if text_eq existing (fingerprint request) then pure tt else throw mismatch

  abbrev pub completed_or_conflict :
      RecordStatus → Option Response → Exec (Desk W) (Option Response)
  completed_or_conflict completed (some r) = pure (some r)
  completed_or_conflict completed none = throw still_processing
  completed_or_conflict processing r = throw still_processing

  abbrev pub saved_of : Json → Option Record → Exec (Desk W) (Option Response)
  saved_of request none = pure none
  saved_of request (some r) = do
    assert_same_payload r.request_fingerprint request
    completed_or_conflict r.status r.result

  unfoldable pub get_saved_result : IdempotencyContext → Exec (Desk W) (Option Response)
  unfolding assert_same_payload identity
  get_saved_result c = do
    found ← invoke (records_find_one (identity c)) (record_find (identity c))
    saved_of c.request found

  abbrev pub completed_of : Json → Option Record → Exec (Desk W) (Option Response)
  completed_of request none = pure none
  completed_of request (some r) = do
    assert_same_payload r.request_fingerprint request
    pure (if is_completed r.status then r.result else none)

  unfoldable pub get_completed_result : IdempotencyContext → Exec (Desk W) (Option Response)
  unfolding assert_same_payload identity
  get_completed_result c = do
    found ← invoke (records_find_one (identity c)) (record_find (identity c))
    completed_of c.request found

  unfoldable pub new_record : IdempotencyContext → Record
  unfolding identity
  new_record c = record {
    identity = identity c;
    request_fingerprint = fingerprint c.request;
    status = processing;
    result = none;
  }

  -- A race for the unique key is a conflict.
  abbrev pub on_create_failure : Exception → Exec (Desk W) (Unit {0})
  on_create_failure (driver code keys) =
      if code == 11000 then throw already_processing else throw (driver code keys)
  on_create_failure e = throw e

  unfoldable pub claim : IdempotencyContext → Exec (Desk W) (Unit {0})
  unfolding new_record
  claim c =
      try_catch (invoke (records_create (new_record c)) (record_create (new_record c)))
        on_create_failure

  unfoldable pub save_result : IdempotencyContext → Response → Exec (Desk W) (Unit {0})
  unfolding identity
  save_result c r = do
    matched ←
        invoke (records_update_one (identity c) (fingerprint c.request) r)
          (record_update (identity c) (fingerprint c.request) r)
    when (not (matched == 1)) (throw service_unavailable)
