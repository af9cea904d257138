-- ===== src/Notifications/Tests/Tasks.antt =====
-- A request without a task's name in production, and an address with a slash at its end.
use interiors_api_client.Common.{is_some, if◌then◌else◌, ◌≡◌, ◌↔◌, ◌⊎◌, refl, ℕ, Option, some, true}
use interiors_api_client.Common.Text.{Text, text}
use interiors_api_client.Common.Exception.{Exception, error}
use interiors_api_client.Common.Exec.{ok, err, throw}
use interiors_api_client.Notifications.Pipeline.{execute}
use interiors_api_client.Notifications.Dispatch.{task_url}
use interiors_api_client.Notifications.Webhook.{Gateway, expected_audience, process_notification}
use interiors_api_client.Notifications.Webhook.Gate.{IsTrusted, traced, process_notification-Gated}
use interiors_api_client.Notifications.Webhook.Audience.{
  EndsWithSlash, task_url-eq-expected_audience_iff,
}
use interiors_api_client.Notifications.Tests.{outside, start}

abbrev config : Text → Option Text
config name = some (text "https://api.site.org")

-- Google's client vouches for the configured account.
abbrev gate : Gateway ℕ
gate = record {
  is_production = true;
  config = config;
  verify_id_token = λ t a w.
      (ok (some (record { email = some (text "https://api.site.org"); email_verified = true })), w);
  active_trace = some (text "trace");
}

process_notification-Gated_example :
    (IsTrusted gate (some (text "Bearer abc")) (some (text "task")) start.services
      × (process_notification outside gate (some (text "Bearer abc")) (some (text "task")) start
          ≡ (if is_some start.context.recipient then execute outside else throw error)
              (traced outside gate (some (text "Bearer abc")) (some (text "task")) start)))
    ⊎ ((e : Exception) × ((process_notification outside gate
            (some (text "Bearer abc"))
            (some (text "task"))
            start).0
          ≡ err e)
        × ((process_notification outside gate
              (some (text "Bearer abc"))
              (some (text "task"))
              start).1.calls
            ≡ start.calls)
        × ((process_notification outside gate
              (some (text "Bearer abc"))
              (some (text "task"))
              start).1.context
            ≡ start.context))
process_notification-Gated_example =
    process_notification-Gated outside gate (some (text "Bearer abc")) (some (text "task")) start
      refl

task_url-eq-expected_audience_iff_example :
    (task_url (text "https://x/") ≡ expected_audience (text "https://x/"))
    ↔ (¬ EndsWithSlash (text "https://x/"))
task_url-eq-expected_audience_iff_example = task_url-eq-expected_audience_iff (text "https://x/")
