-- ===== src/Notifications/Providers/Gmail.antt =====
-- `GmailAdapter` (providers/email/gmail.adapter.ts).
pub mod Sends
use interiors_api_client.Common.{Bool, true, false, Option, none, some, ◌++◌}
use interiors_api_client.Common.Text.{Text, text}
use interiors_api_client.Common.Exec.{Exec, Result, pure, lift, try_catch, ◌>>=◌, ◌>>◌}
use interiors_api_client.Notifications.Context.{Context, Delivery, Provider}
use interiors_api_client.Notifications.Providers.{
  Adapter, Mail, outside_call, filled, address_of, subject_of, delivered_by, failed_by, keep_made,
}

-- The package: a transporter `T` for an account, its check, and its delivery of a mail.
pub record Nodemailer (T W : Type 0) : Type 0 where
  pub create_transport : (user pass : Text) → Result T
  pub verify : T → Exec W (Unit {0})
  pub send_mail : T → Mail → Exec W (Unit {0})

-- `${value}` of a value that may be undefined
abbrev pub shown : Option Text → Text
shown none = text "undefined"
shown (some s) = s

abbrev pub mail_of : Option Text → Option Text → Text → Text → Mail
mail_of user subject to html = record {
  from = text "\"JC Interiors\" <" ++ (shown user ++ text ">");
  to = to;
  subject = subject_of subject;
  html = html;
}

module _ {T W : Type 0} (config : Text → Option Text) (lib : Nodemailer T W) where
  -- Makes the client from the credentials, both of which must be there.
  abbrev pub connect : Exec (Adapter T W) T
  connect = do
    user ← lift (filled (config (text "GMAIL_USER")))
    pass ← lift (filled (config (text "GMAIL_APP_PASSWORD")))
    keep_made (lib.create_transport user pass)

  abbrev pub client_or_connect : Option T → Exec (Adapter T W) T
  client_or_connect (some t) = pure t
  client_or_connect none = connect

  unfoldable pub get_transporter : Exec (Adapter T W) T
  get_transporter s = client_or_connect s.client s

  unfoldable pub is_available : Exec (Adapter T W) Bool
  is_available =
      try_catch (do t ← get_transporter; outside_call (lib.verify t); pure true) (λ _. pure false)

  -- The `try` block of `sendNotification`
  unfoldable pub try_send : Context → Exec (Adapter T W) Delivery
  try_send c = do
    to ← lift (address_of c.recipient)
    html ← lift (filled c.metadata.compiled_body)
    t ← get_transporter
    outside_call (lib.send_mail t (mail_of (config (text "GMAIL_USER")) c.subject to html))
    pure (delivered_by Provider.gmail)

  unfoldable pub send_notification : Context → Exec (Adapter T W) Delivery
  unfolding try_send
  send_notification c = try_catch (try_send c) (λ _. pure (failed_by Provider.gmail))
