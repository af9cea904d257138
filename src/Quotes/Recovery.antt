-- ===== src/Quotes/Recovery.antt =====
-- What the `catch` block of a submission makes of an exception of the transaction.
pub mod Outcomes
use interiors_api_client.Common.{
  ◌≡◌, refl, ap, ◌∙◌, inl, inr, false, Option, none, some, Bool-cases, if◌then◌else◌,
}
use interiors_api_client.Common.Text.{Text}
use interiors_api_client.Common.Exception.{Exception}
use interiors_api_client.Common.Exec.{Result, ok, err, Exec, continue, handle_result, pure}
use interiors_api_client.Quotes.Desk.{Response, Desk, Services}
use interiors_api_client.Quotes.Guard.{release_lock}
use interiors_api_client.Quotes.Idempotency.{IdempotencyContext, get_completed_result}
use interiors_api_client.Quotes.Service.{
  Outcome, answered, already_processed, is_idempotency_conflict, is_fingerprint_race,
  answer_or_fail, fail_submission, recover_by, recover,
}

module _ {W : Type 0} (services : Services W) where
  -- A race for the fingerprint is a conflict of its own; any other exception stays.
  abbrev pub failed : Exception → Result Outcome
  failed e = err (if is_fingerprint_race e then already_processed else e)

  abbrev pub answered_or_failed : Exception → Result (Option Response) → Result Outcome
  answered_or_failed e (ok (some r)) = ok (answered r)
  answered_or_failed e (ok none) = failed e
  answered_or_failed e (err x) = err x

  -- The outcome, from the exception and what the lookup of a concurrent result gives.
  abbrev pub recovered : Exception → Result (Option Response) → Result Outcome
  recovered e looked = if is_idempotency_conflict e then answered_or_failed e looked else failed e

  module _ (counts : (w : W) → (services.counter_inc false w).0 ≡ ok tt) where
    fail_submission-failed :
        (e : Exception) (s : Desk W) → (fail_submission services e s).0 ≡ failed e
    unfolding fail_submission
    fail_submission-failed e s = elim (Bool-cases (is_fingerprint_race e)) [
      | inl race ↦ rw race refl
      | inr other ↦ rw (other, counts s.outside) refl
    ]

    continue-answered_or_failed :
        (e : Exception) (looked : Result (Option Response)) (s : Desk W)
        → (continue looked (answer_or_fail services e) s).0 ≡ answered_or_failed e looked
    continue-answered_or_failed e (ok (some r)) s = refl
    continue-answered_or_failed e (ok none) s = fail_submission-failed e s
    continue-answered_or_failed e (err x) s = refl

    recover_by-recovered :
        (c : IdempotencyContext) (e : Exception) (s : Desk W)
        → (recover_by services c e s).0 ≡ recovered e (get_completed_result services c s).0
    recover_by-recovered c e s = elim (Bool-cases (is_idempotency_conflict e)) [
      | inl clash ↦ rw clash (
          continue-answered_or_failed e (get_completed_result services c s).0
            (get_completed_result services c s).1)
      | inr other ↦ rw other (fail_submission-failed e s)
    ]

    swallowed :
        (r : Result (Unit {0})) (k : Exec (Desk W) Outcome) (s : Desk W)
        → continue
            (handle_result r (λ _. pure tt) s).0
            (λ _. k)
            (handle_result r (λ _. pure tt) s).1
          ≡ k s
    swallowed (ok u) k s = refl
    swallowed (err e) k s = refl

    -- If counting a failure cannot fail, then after an exception of the transaction, and whether or
    -- not the lock could be released: a conflict over the idempotency key gives the result that a
    -- concurrent request has completed, if there is one, or the exception of that lookup; a race
    -- for the fingerprint is thrown as a conflict; everything else is thrown again as it was.
    pub recover_lem :
        (c : IdempotencyContext) (fingerprint : Text) (e : Exception) (s : Desk W)
        → (recover services c fingerprint e s).0
          ≡ recovered e (get_completed_result services c (release_lock services fingerprint s).1).0
    unfolding recover
    recover_lem c fingerprint e s =
        let released = release_lock services fingerprint s in
        ap (λ (p : Result Outcome × Desk W). p.0)
          (swallowed released.0 (recover_by services c e) released.1)
        ∙ recover_by-recovered c e released.1
