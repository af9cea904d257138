-- ===== src/Notifications/Stages/Transport.antt =====
-- `TransportStage` (pipeline/stages/transport.stage.ts) and `NotificationFactory`
-- (factory/notification.factory.ts).
use interiors_api_client.Common.{Bool, true, false, Option, none, some, if◌then◌else◌}
use interiors_api_client.Common.Text.{Text, text, text_eq, to_upper_case}
use interiors_api_client.Common.Exception.{
  application, infrastructure, provider_not_found, provider_unavailable, delivery_failed,
}
use interiors_api_client.Common.Exec.{Result, ok, err, Exec, pure, throw, lift, modify, ◌>>=◌, ◌>>◌}
use interiors_api_client.Notifications.Context.{
  Context, Delivery, Status, Provider, Services, Stage, Run, invoke, is_available, send,
  with_metadata,
}
use interiors_api_client.Notifications.Stages.RateLimit.{is_named}

-- `config.get('EMAIL_PROVIDER', 'GMAIL').toUpperCase()`
abbrev email_provider : Option Text → Text
email_provider none = text "GMAIL"
email_provider (some p) = to_upper_case p

unfoldable pub get_provider : Option Text → Context → Result Provider
get_provider configured c =
    if is_named c.type (text "email")
    then if text_eq (email_provider configured) (text "GMAIL")
      then ok Provider.gmail
      else if text_eq (email_provider configured) (text "RESEND")
      then ok Provider.resend
      else err (application provider_not_found)
    else err (application provider_not_found)

abbrev pub is_failed : Status → Bool
is_failed Status.failed = true
is_failed _ = false

module _ {W : Type 0} (services : Services W) where
  open services use {config_get, provider_is_available, provider_send}

  abbrev pub refuse_unless : Bool → Exec (Run W) (Unit {0})
  refuse_unless true = pure tt
  refuse_unless false = throw (infrastructure provider_unavailable 500)

  abbrev pub refuse_failed : Bool → Exec (Run W) (Unit {0})
  refuse_failed true = throw (infrastructure delivery_failed 500)
  refuse_failed false = pure tt

  abbrev pub send_by : Provider → Exec (Run W) Delivery
  send_by p s = invoke (send p) (provider_send p s.context) s

  unfoldable pub deliver : Provider → Exec (Run W) (Unit {0})
  deliver p = do
    ready ← invoke (is_available p) (provider_is_available p)
    refuse_unless ready
    d ← send_by p
    modify (with_metadata λ m. record m { provider_used = d.provider; result = some d })
    refuse_failed (is_failed d.status)

  unfoldable pub transport : Stage W
  unfolding deliver
  transport next s =
      (do p ← lift (get_provider (config_get (text "EMAIL_PROVIDER")) s.context); deliver p; next) s
