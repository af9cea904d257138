-- ===== src/Notifications/Providers/Resend.antt =====
-- `ResendAdapter` (providers/email/resend.adapter.ts).
pub mod Sends
use interiors_api_client.Common.{Bool, true, false, Option, none, some}
use interiors_api_client.Common.Text.{Text, text}
use interiors_api_client.Common.Exception.{error}
use interiors_api_client.Common.Exec.{
  Exec, Result, ok, err, pure, throw, lift, when, try_catch, ◌>>=◌, ◌>>◌,
}
use interiors_api_client.Notifications.Context.{Context, Delivery, Provider}
use interiors_api_client.Notifications.Providers.{
  Adapter, Mail, outside_call, filled, address_of, subject_of, delivered_by, failed_by, keep_made,
}

-- The package: a client `T` for a key, and its delivery of a mail with two tags, which says whether
-- the answer has an `error`.
pub record ResendPackage (T W : Type 0) : Type 0 where
  pub create : Text → Result T
  pub send : T → Mail → (notification_id category : Option Text) → Exec W Bool

-- `configService.getOrThrow`, which lets an empty value pass
abbrev pub get_or_throw : Option Text → Result Text
get_or_throw none = err error
get_or_throw (some v) = ok v

abbrev pub mail_of : Text → Option Text → Text → Text → Mail
mail_of from subject to html = record {
  from = from;
  to = to;
  subject = subject_of subject;
  html = html;
}

module _ {T W : Type 0} (config : Text → Option Text) (lib : ResendPackage T W) where
  abbrev pub connect : Exec (Adapter T W) T
  connect = do key ← lift (filled (config (text "RESEND_API_KEY"))); keep_made (lib.create key)

  abbrev pub client_or_connect : Option T → Exec (Adapter T W) T
  client_or_connect (some t) = pure t
  client_or_connect none = connect

  unfoldable pub get_client : Exec (Adapter T W) T
  get_client s = client_or_connect s.client s

  unfoldable pub is_available : Exec (Adapter T W) Bool
  is_available =
      try_catch (do get_client; lift (filled (config (text "RESEND_FROM_EMAIL"))); pure true)
        (λ _. pure false)

  -- The `try` block of `sendNotification`
  unfoldable pub try_send : Context → Exec (Adapter T W) Delivery
  try_send c = do
    to ← lift (address_of c.recipient)
    html ← lift (filled c.metadata.compiled_body)
    from ← lift (get_or_throw (config (text "RESEND_FROM_EMAIL")))
    t ← get_client
    refused ←
        outside_call (lib.send t (mail_of from c.subject to html) c.notification_id c.category)
    when refused (throw error)
    pure (delivered_by Provider.resend)

  unfoldable pub send_notification : Context → Exec (Adapter T W) Delivery
  unfolding try_send
  send_notification c = try_catch (try_send c) (λ _. pure (failed_by Provider.resend))
