-- ===== src/Notifications/Webhook.antt =====
-- The webhook of the queues (module/notification-webhook.controller.ts):
-- `NotificationWebhookController`. Google's token client is a parameter.
pub mod Audience
pub mod Gate
use interiors_api_client.Common.{
  Option, none, some, is_some, ◌++◌, [], ◌∷◌, if◌then◌else◌, Bool, true, false, not, ◌&&◌, ◌==◌,
  is_empty,
}
use interiors_api_client.Common.Text.{Text, text, text_eq}
use interiors_api_client.Common.Exception.{unauthorized, error}
use interiors_api_client.Common.Exec.{
  Exec, Result, ok, err, lift, pure, throw, try_catch, modify, when, ◌>>=◌, ◌>>◌,
}
use interiors_api_client.Notifications.Context.{Context, Services, Run}
use interiors_api_client.Notifications.Pipeline.{execute}
use interiors_api_client.Notifications.Dispatch.{get_or_throw, process_path}

-- The claims of a token that are read: the payload may be missing.
pub record Payload : Type 0 where
  pub email : Option Text
  pub email_verified : Bool

-- The environment: `NODE_ENV`, the configuration, `verifyIdToken` for a token and an audience, and
-- the trace of the request.
pub record Gateway (W : Type 0) : Type 0 where
  pub is_production : Bool
  pub config : Text → Option Text
  pub verify_id_token : Text → Text → Exec W (Option Payload)
  pub active_trace : Option Text

-- `.replace(/\/$/, "")`
unfoldable pub without_last_slash : Text → Text
without_last_slash [] = []
without_last_slash (c ∷ s) =
    let rest = without_last_slash s in if (c == 47) && is_empty s then [] else c ∷ rest

unfoldable pub expected_audience : Text → Text
unfolding without_last_slash
expected_audience base = without_last_slash base ++ process_path

-- The rest of a text after a prefix.
unfoldable pub after_prefix : Text → Text → Option Text
after_prefix [] s = some s
after_prefix (c ∷ p) [] = none
after_prefix (c ∷ p) (d ∷ s) = if c == d then after_prefix p s else none

abbrev pub bearer_of : Option Text → Result Text
bearer_of none = err unauthorized
bearer_of (some header) = elim (after_prefix (text "Bearer ") header) [
  | none ↦ err unauthorized
  | some token ↦ ok token
]

abbrev pub same_email : Text → Option Text → Bool
same_email expected none = false
same_email expected (some e) = text_eq e expected

abbrev pub is_trusted : Text → Option Payload → Bool
is_trusted expected none = false
is_trusted expected (some p) = same_email expected p.email && p.email_verified

abbrev pub is_given : Option Text → Bool
is_given none = false
is_given (some s) = not (is_empty s)

-- `if (!context.traceId && activeTraceId) …`
unfoldable pub with_trace : Option Text → Context → Context
with_trace active c =
    if not (is_given c.trace_id) && is_given active then record c { trace_id = active } else c

-- A call of Google's client, which no stage of the pipeline sees.
abbrev pub outside : {W A : Type 0} → Exec W A → Exec (Run W) A
outside f s = let (r, w) = f s.services in (r, record s { services = w })

module _ {W : Type 0} (services : Services W) (gate : Gateway W) where
  -- The `try` block of `verifyCloudTasksToken`, with its `catch`
  unfoldable pub check_token : Text → Text → Text → Exec (Run W) (Unit {0})
  check_token token audience expected =
      try_catch
        (do
          payload ← outside (gate.verify_id_token token audience)
          if is_trusted expected payload then pure tt else throw unauthorized)
        (λ e. throw unauthorized)

  -- `verifyCloudTasksToken`
  unfoldable pub verify_cloud_tasks_token : Option Text → Exec (Run W) (Unit {0})
  unfolding after_prefix expected_audience check_token
  verify_cloud_tasks_token header = do
    token ← lift (bearer_of header)
    base ← lift (get_or_throw gate.config (text "API_BASE_URL"))
    expected ← lift (get_or_throw gate.config (text "GCP_TASKS_INVOKER_SERVICE_ACCOUNT_EMAIL"))
    check_token token (expected_audience base) expected

  -- The guard in production
  unfoldable pub admit : Option Text → Option Text → Exec (Run W) (Unit {0})
  unfolding verify_cloud_tasks_token
  admit header task_name =
      if gate.is_production
      then (if is_given task_name then verify_cloud_tasks_token header else throw unauthorized)
      else pure tt

  -- The `try` block of `processNotification`: the line for the log reads the recipient's address,
  -- which throws if there is no recipient.
  unfoldable pub run_pipeline : Exec (Run W) (Unit {0})
  run_pipeline s = (if is_some s.context.recipient then execute services else throw error) s

  -- `processNotification`, on a run that holds the context
  unfoldable pub process_notification : Option Text → Option Text → Exec (Run W) (Unit {0})
  unfolding admit with_trace run_pipeline
  process_notification header task_name = do
    admit header task_name
    modify (λ s. record s { context = with_trace gate.active_trace s.context })
    run_pipeline
