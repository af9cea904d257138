-- ===== src/Notifications/Providers.antt =====
-- The email providers (providers/email): what `GmailAdapter` and `ResendAdapter` share. The packages
-- `nodemailer` and `resend` and the configuration are parameters.
pub mod Gmail
pub mod Resend
pub mod Needs
pub mod Routed
use interiors_api_client.Common.{Option, none, some, [], ◌∷◌}
use interiors_api_client.Common.Text.{Text, text}
use interiors_api_client.Common.Exception.{error}
use interiors_api_client.Common.Exec.{Exec, Result, ok, err}
use interiors_api_client.Notifications.Context.{Recipient, Delivery, Status, Provider}

-- An adapter: the client, which is made when it is first needed, and the outside.
pub record Adapter (T W : Type 0) : Type 0 where
  pub client : Option T
  pub outside : W

pub record Mail : Type 0 where
  pub from : Text
  pub to : Text
  pub subject : Text
  pub html : Text

-- A call of the client.
abbrev pub outside_call : {T W A : Type 0} → Exec W A → Exec (Adapter T W) A
outside_call f s = let (r, w) = f s.outside in (r, record s { outside = w })

-- `if (!value) throw new Error(…)`
abbrev pub filled : Option Text → Result Text
filled none = err error
filled (some []) = err error
filled (some (c ∷ s)) = ok (c ∷ s)

-- `context.recipient.email`, which is a TypeError without a recipient, and its check
abbrev pub address_of : Option Recipient → Result Text
address_of none = err error
address_of (some r) = filled r.email

-- `context.subject || 'Notification from JC Interiors'`
abbrev pub subject_of : Option Text → Text
subject_of none = text "Notification from JC Interiors"
subject_of (some []) = text "Notification from JC Interiors"
subject_of (some (c ∷ s)) = c ∷ s

abbrev pub delivered_by : Provider → Delivery
delivered_by p = record { status = Status.delivered; provider = some p }

abbrev pub failed_by : Provider → Delivery
failed_by p = record { status = Status.failed; provider = some p }

-- Keeps a client that was made.
abbrev pub keep_made : {T W : Type 0} → Result T → Exec (Adapter T W) T
keep_made (ok t) s = (ok t, record s { client = some t })
keep_made (err e) s = (err e, s)
