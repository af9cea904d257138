-- ===== src/Notifications/DeliveryLog/Transparent.antt =====
-- The tracker stage (pipeline/stages/tracker.stage.ts) over the log of the deliveries
-- (persistence/mongo/notification-db.service.ts).
use interiors_api_client.Common.{◌≡◌, ◌∙◌, refl, ap, Option, none, some}
use interiors_api_client.Common.Exception.{Exception}
use interiors_api_client.Common.Exec.{Exec, Result, ok, err, handle_result, continue, ◌>>=◌, gets}
use interiors_api_client.Notifications.Context.{Delivery, Services, Run, invoke, record_attempt}
use interiors_api_client.Notifications.Stages.Track.{
  track, run_tracked, note_failure, note_success, failed_delivery,
}
use interiors_api_client.Notifications.DeliveryLog.{
  Collections, record_attempt-ok, record_result-ok,
}
use interiors_api_client.Notifications.DeliveryLog

-- After a first method that returned, a chain answers what its continuation answers.
continue-ok :
    {S A B : Type 0} (r : Result A) (f : A → Exec S B) (s : S) (a : A)
    → r ≡ ok a
    → continue r f s ≡ f a s
continue-ok r f s a h = ap (λ x. continue x f s) h

handled-ok :
    {S A : Type 0} (r : Result A) (h : Exception → Exec S A) (s : S) (a : A)
    → r ≡ ok a
    → (handle_result r h s).0 ≡ ok a
handled-ok r h s a e = ap (λ x. (handle_result x h s).0) e

module _ {W : Type 0} (db : Collections W) (base : Services W) where
  -- The services of the pipeline with the log for their tracker.
  abbrev logged : Services W
  logged = record base {
    tracker_record_attempt = DeliveryLog.record_attempt db;
    tracker_record_result = DeliveryLog.record_result db;
  }

  success-ok : (found : Option Delivery) (s : Run W) → (note_success logged found s).0 ≡ ok tt
  success-ok none s = refl
  success-ok (some d) s = record_result-ok db s.context d s.services

  tracked-answer :
      (r : Result (Unit {0})) (s : Run W)
      → (let (t, s') =
            continue r (λ _. gets (λ x. x.context.metadata.result) >>= note_success logged) s in
          handle_result t (note_failure logged) s').0
        ≡ r
  unfolding note_failure
  tracked-answer (ok u) s = handled-ok _ _ _ tt (success-ok s.context.metadata.result s)
  tracked-answer (err e) s =
      ap (λ p. p.0)
        (continue-ok _ _ _ tt
          (record_result-ok db s.context (failed_delivery s.context) s.services))

  -- With the log for its tracker, the stage answers what the later stages answer to the run on which
  -- the attempt is recorded, whatever the collections answer: it hides no failure and adds none.
  track-answer :
      (next : Exec (Run W) (Unit {0})) (s : Run W)
      → (track logged next s).0
        ≡ (next (invoke record_attempt (DeliveryLog.record_attempt db s.context) s).1).0
  unfolding track run_tracked
  track-answer next s =
      let s1 = (invoke record_attempt (DeliveryLog.record_attempt db s.context) s).1 in
      ap (λ p. p.0) (continue-ok _ _ s1 tt (record_attempt-ok db s.context s.services))
      ∙ tracked-answer (next s1).0 (next s1).1
