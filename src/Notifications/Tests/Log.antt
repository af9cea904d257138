-- ===== src/Notifications/Tests/Log.antt =====
-- The log of the deliveries, over collections that count the quotes that are marked.
use interiors_api_client.Common.{ℕ, ◌+◌, ◌≡◌, refl, none, true, false}
use interiors_api_client.Common.Text.{text_eq, to_lower_case}
use interiors_api_client.Common.Exception.{error}
use interiors_api_client.Common.Exec.{ok, err}
use interiors_api_client.Notifications.Context.{Status}
use interiors_api_client.Notifications.DeliveryLog.{
  Collections, record_attempt, record_result, is_already_delivered,
}
use interiors_api_client.Notifications.Tests.{start}

abbrev marks : Collections ℕ
marks = record {
  create_log = λ a w. (err error, w + 100);
  find_one = λ i st w. (ok none, w);
  update_log = λ i d w. (ok tt, w + 10);
  mark_email_sent = λ i w. (ok tt, w + 1);
  is_valid_object_id = λ i. true;
}

-- A collection that refuses the attempt is asked, and nothing is thrown.
attempt_swallowed : record_attempt marks start.context 0 ≡ (ok tt, 100)
unfolding record_attempt
attempt_swallowed = refl

-- Without a recipient the collection is not asked.
attempt_dropped : record_attempt marks (record start.context { recipient = none }) 0 ≡ (ok tt, 0)
unfolding record_attempt
attempt_dropped = refl

delivered_email :
    record_result marks start.context (record { status = Status.delivered; provider = none }) 0
    ≡ (ok tt, 11)
unfolding record_result text_eq to_lower_case
delivered_email = refl

failed_email :
    record_result marks start.context (record { status = Status.failed; provider = none }) 0
    ≡ (ok tt, 10)
unfolding record_result text_eq to_lower_case
failed_email = refl

not_delivered_yet : is_already_delivered marks start.context 0 ≡ (ok false, 0)
unfolding is_already_delivered
not_delivered_yet = refl
