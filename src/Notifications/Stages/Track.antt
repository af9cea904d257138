-- ===== src/Notifications/Stages/Track.antt =====
-- `TrackerStage` (pipeline/stages/tracker.stage.ts).
use interiors_api_client.Common.{Option, none, some}
use interiors_api_client.Common.Text.{text}
use interiors_api_client.Common.Exception.{Exception}
use interiors_api_client.Common.Exec.{Exec, pure, throw, gets, try_catch, ◌>>=◌, ◌>>◌}
use interiors_api_client.Notifications.Context.{
  Context, Delivery, Status, Services, Stage, Run, invoke, record_attempt, record_result,
}

-- `'FAILED' as any`, which is none of the `NotificationStatus` values
abbrev pub failed_delivery : Context → Delivery
failed_delivery c = record {
  status = Status.other (text "FAILED");
  provider = c.metadata.provider_used;
}

module _ {W : Type 0} (services : Services W) where
  open services use {tracker_record_attempt, tracker_record_result}

  abbrev pub note_result : Delivery → Exec (Run W) (Unit {0})
  note_result d s = invoke (record_result d) (tracker_record_result s.context d) s

  -- `if (result) await this.tracker.recordResult(context, result)`
  abbrev pub note_success : Option Delivery → Exec (Run W) (Unit {0})
  note_success none = pure tt
  note_success (some d) = note_result d

  unfoldable pub note_failure : Exception → Exec (Run W) (Unit {0})
  note_failure e = do failed ← gets (λ s. failed_delivery s.context); note_result failed; throw e

  unfoldable pub run_tracked : Exec (Run W) (Unit {0}) → Exec (Run W) (Unit {0})
  run_tracked next = do next; found ← gets (λ s. s.context.metadata.result); note_success found

  unfoldable pub track : Stage W
  unfolding note_failure run_tracked
  track next s =
      (invoke record_attempt (tracker_record_attempt s.context)
          >> try_catch (run_tracked next) note_failure)
        s
