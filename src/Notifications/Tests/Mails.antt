-- ===== src/Notifications/Tests/Mails.antt =====
-- A mail server that accepts every mail, and one that refuses.
use interiors_api_client.Common.{ℕ, ◌+◌, ◌≡◌, ◌↔◌, ◌⊎◌, refl, true, Option, none, some}
use interiors_api_client.Common.Text.{Text, text}
use interiors_api_client.Common.Exec.{ok, pure}
use interiors_api_client.Common.Exec.Throws.{Throws, Throws-pure}
use interiors_api_client.Notifications.Context.{Context, Provider, Services}
use interiors_api_client.Notifications.Stages.Transport.{transport}
use interiors_api_client.Notifications.Providers.{Adapter, delivered_by}
use interiors_api_client.Notifications.Providers.Gmail
use interiors_api_client.Notifications.Providers.Gmail.{Nodemailer}
use interiors_api_client.Notifications.Providers.Gmail.Sends as GmailSends
use interiors_api_client.Notifications.Providers.Gmail.Sends.{send_notification-delivers_iff}
use interiors_api_client.Notifications.Providers.Resend.{ResendPackage}
use interiors_api_client.Notifications.Providers.Routed.{
  Adapters, adapted, IsTransportFailure, transport-Throws,
}
use interiors_api_client.Notifications.Tests.{answering, estimate}

abbrev config : Text → Option Text
config name = some (text "ann@gmail.com")

-- The outside counts the mails.
abbrev mailer : Nodemailer Text ℕ
mailer = record {
  create_transport = λ user pass. ok user;
  verify = λ t w. (ok tt, w);
  send_mail = λ t m w. (ok tt, w + 1);
}

abbrev refusing : ResendPackage Text ℕ
refusing = record { create = λ key. ok key; send = λ t m i c w. (ok true, w + 1) }

abbrev compiled : Context
compiled = record estimate {
  metadata = record (estimate.metadata) { compiled_body = some (text "Hi") };
}

abbrev idle : Adapter Text ℕ
idle = record { client = none; outside = 0 }

send_notification-delivers_iff_example :
    ((Gmail.send_notification config mailer compiled idle).0 ≡ ok (delivered_by Provider.gmail))
    ↔ GmailSends.CanSend config mailer compiled idle
send_notification-delivers_iff_example = send_notification-delivers_iff config mailer compiled idle

-- The services of the other tests, over the state of the two adapters.
abbrev base : Services (Adapters Text Text ℕ)
base = answering

transport-Throws_example :
    Throws
      (λ e. IsTransportFailure mailer refusing base e ⊎ ⊥)
      (transport (adapted mailer refusing base) (pure tt))
transport-Throws_example =
    transport-Throws mailer refusing base {P = λ e. ⊥} (pure tt) (Throws-pure tt)

accepted :
    (Gmail.send_notification config mailer compiled idle).0 ≡ ok (delivered_by Provider.gmail)
unfolding Gmail.send_notification Gmail.get_transporter
accepted = refl
