-- ===== src/Notifications/Dispatch.antt =====
-- The tasks of a notification (queue/notification.dispatcher.ts): `NotificationDispatcher`. The client
-- of the queues is a parameter; the body of a task is the context itself, and the headers, which
-- carry the trace, are left out.
use interiors_api_client.Common.{Option, none, some, ◌++◌, if◌then◌else◌, Bool, false}
use interiors_api_client.Common.Text.{Text, text, text_eq}
use interiors_api_client.Common.Exception.{error}
use interiors_api_client.Common.Exec.{Exec, Result, ok, err, lift, ◌>>=◌}
use interiors_api_client.Notifications.Context.{Context}

-- `parent` is the path of the queue by its three parts.
pub record Task : Type 0 where
  pub project : Text
  pub location : Text
  pub queue : Text
  pub url : Text
  pub body : Context
  pub service_account_email : Text
  pub audience : Text

-- `configService.getOrThrow`
abbrev pub get_or_throw : (Text → Option Text) → Text → Result Text
get_or_throw config name = elim (config name) [ none ↦ err error | some v ↦ ok v ]

abbrev pub is_high : Option Text → Bool
is_high none = false
is_high (some p) = text_eq p (text "high")

unfoldable pub queue_of : Context → Text
queue_of c = if is_high c.priority then text "notifications-high" else text "notifications"

abbrev pub process_path : Text
process_path = text "/api/v1/internal/tasks/process-notification"

-- `url`, which is also the audience of the token.
unfoldable pub task_url : Text → Text
task_url app_url = app_url ++ process_path

module _ {W : Type 0} (config : Text → Option Text) (create_task : Task → Exec W (Unit {0})) where
  -- `dispatch`: a failure is logged and thrown again.
  unfoldable pub dispatch : Context → Exec W (Unit {0})
  unfolding queue_of task_url
  dispatch context = do
    project ← lift (get_or_throw config (text "GCP_PROJECT_ID"))
    location ← lift (get_or_throw config (text "GCP_QUEUE_LOCATION"))
    app_url ← lift (get_or_throw config (text "API_BASE_URL"))
    email ← lift (get_or_throw config (text "GCP_TASKS_INVOKER_SERVICE_ACCOUNT_EMAIL"))
    create_task (record {
      project = project;
      location = location;
      queue = queue_of context;
      url = task_url app_url;
      body = context;
      service_account_email = email;
      audience = task_url app_url;
    })
