-- ===== src/Notifications/DeliveryLog.antt =====
-- The log of the deliveries (persistence/mongo/notification-db.service.ts): `NotificationDbService`,
-- which the pipeline is given as its tracker. The two collections are parameters, each call of which
-- may fail; the time and the error of a result serve the record only and are left out, as is
-- `getDeliveryHistory`, a plain read.
pub mod Transparent
use interiors_api_client.Common.{◌≡◌, refl, Option, none, some, Bool, true, false, ◌&&◌, [], ◌∷◌}
use interiors_api_client.Common.Text.{Text, text, text_eq, to_lower_case}
use interiors_api_client.Common.Exception.{error}
use interiors_api_client.Common.Exec.{
  Exec, Result, ok, err, pure, throw, try_catch, handle_result, when, ◌>>◌, ◌>>=◌,
}
use interiors_api_client.Notifications.Context.{Context, Recipient, Delivery, Status}

-- The document that `recordAttempt` creates.
pub record Attempt : Type 0 where
  pub notification_id : Option Text
  pub trace_id : Option Text
  pub recipient_id : Text
  pub recipient_contact : Option Text
  pub type : Option Text
  pub category : Option Text
  pub template_name : Option Text
  pub status : Status

-- The calls of the two collections, and `mongoose.isValidObjectId`. `find_one` is given the two
-- fields of the filter, `update_log` the field of the filter and the new values.
pub record Collections (W : Type 0) : Type 0 where
  pub create_log : Attempt → Exec W (Unit {0})
  pub find_one : Option Text → Status → Exec W (Option Attempt)
  pub update_log : Option Text → Delivery → Exec W (Unit {0})
  pub mark_email_sent : Option Text → Exec W (Unit {0})
  pub is_valid_object_id : Option Text → Bool

-- `value || other`, for a text that may be absent
abbrev or_text : {A : Type 0} → Option Text → (Text → A) → A → A
or_text none f other = other
or_text (some []) f other = other
or_text (some (c ∷ s)) f other = f (c ∷ s)

abbrev attempt_of : Context → Recipient → Attempt
attempt_of c r = record {
  notification_id = c.notification_id;
  trace_id = c.trace_id;
  recipient_id = or_text r.user_id (λ s. s) (text "anonymous");
  recipient_contact = or_text r.email some r.phone;
  type = c.type;
  category = c.category;
  template_name = c.template_name;
  status = Status.other (text "PENDING");
}

-- `result.status === "delivered"`
abbrev is_delivered : Status → Bool
is_delivered Status.delivered = true
is_delivered _ = false

module _ {W : Type 0} (db : Collections W) where
  open db use {create_log, find_one, update_log, mark_email_sent, is_valid_object_id}

  -- A field of an absent recipient is a TypeError.
  abbrev create_attempt : Context → Option Recipient → Exec W (Unit {0})
  create_attempt c none = throw error
  create_attempt c (some r) = create_log (attempt_of c r)

  unfoldable pub record_attempt : Context → Exec W (Unit {0})
  record_attempt c = try_catch (create_attempt c c.recipient) (λ _. pure tt)

  abbrev is_found : Option Attempt → Bool
  is_found none = false
  is_found (some a) = true

  unfoldable pub is_already_delivered : Context → Exec W Bool
  is_already_delivered c =
      find_one c.notification_id Status.delivered >>= λ found. pure (is_found found)

  -- The quote of a delivered email; the notification has its identifier. `toLowerCase` of an absent
  -- type is a TypeError.
  abbrev mark_quote : Context → Delivery → Option Text → Exec W (Unit {0})
  mark_quote c d none = throw error
  mark_quote c d (some t) =
      when
        (text_eq (to_lower_case t) (text "email")
          && is_delivered d.status
          && is_valid_object_id c.notification_id)
        (mark_email_sent c.notification_id)

  unfoldable pub record_result : Context → Delivery → Exec W (Unit {0})
  record_result c d =
      try_catch (update_log c.notification_id d >> mark_quote c d c.type) (λ _. pure tt)

  swallowed : (r : Result (Unit {0})) (w : W) → (handle_result r (λ _. pure tt) w).0 ≡ ok tt
  swallowed (ok tt) w = refl
  swallowed (err e) w = refl

  -- Whatever the collections answer, and whatever the context lacks, a record of an attempt does not
  -- throw.
  pub record_attempt-ok : (c : Context) (w : W) → (record_attempt c w).0 ≡ ok tt
  unfolding record_attempt
  record_attempt-ok c w = swallowed _ _

  -- Whatever the collections answer, and whatever the context lacks, a record of a result does not
  -- throw.
  pub record_result-ok : (c : Context) (d : Delivery) (w : W) → (record_result c d w).0 ≡ ok tt
  unfolding record_result
  record_result-ok c d w = swallowed _ _
