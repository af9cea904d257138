-- ===== src/Quotes/Replay.antt =====
-- What an idempotency key gives back: `getSavedResult` and `getCompletedResult` on every record.
use interiors_api_client.Common.{◌↔◌, ◌≡◌, refl, ap, inl, inr, Option, none, some, ◌∷◌, Bool-cases}
use interiors_api_client.Common.Text.{text_eq}
use interiors_api_client.Common.Json.{Json}
use interiors_api_client.Common.Text.Laws.{text_eq_refl, eq_of_text_eq}
use interiors_api_client.Common.Exec.{Result, ok, err, continue}
use interiors_api_client.Quotes.Desk.{
  Record, RecordStatus, processing, completed, Response, Desk, Services, records_find_one,
}
use interiors_api_client.Quotes.Idempotency.{
  IdempotencyContext, fingerprint, identity, assert_same_payload, completed_or_conflict, saved_of,
  get_saved_result,
}

module _ {W : Type 0} (services : Services W) where
  -- The record was made for this payload and has a result to give back.
  abbrev pub IsReplay : IdempotencyContext → Option Record → Response → Type 0
  IsReplay c none r = ⊥
  IsReplay c (some found) r =
      (found.request_fingerprint ≡ fingerprint services c.request)
      × ((found.status ≡ completed) × (found.result ≡ some r))

  -- What the lookup of the record gave, and where it left things.
  abbrev pub FindsRecord : IdempotencyContext → Option Record → (s s1 : Desk W) → Type 0
  FindsRecord c found s s1 =
      (services.record_find (identity services c) s.outside ≡ (ok found, s1.outside))
      × (s1.calls ≡ records_find_one (identity services c) ∷ s.calls)

  completed_or_conflict-some :
      (status : RecordStatus) (o : Option Response) (s : Desk W) (r : Response)
      → (completed_or_conflict services status o s).0 ≡ ok (some r)
      → (status ≡ completed) × (o ≡ some r)
  completed_or_conflict-some completed (some r') s r h = (refl, cc)
  completed_or_conflict-some completed none s r h = cc
  completed_or_conflict-some processing o s r h = cc

  saved_of-some :
      (c : IdempotencyContext) (found : Option Record) (s : Desk W) (r : Response)
      → (saved_of services c.request found s).0 ≡ ok (some r)
      → IsReplay c found r
  unfolding assert_same_payload
  saved_of-some c none s r h = cc
  saved_of-some c (some found) s r h =
      elim (Bool-cases (text_eq found.request_fingerprint (fingerprint services c.request))) [
        | inl same ↦ (
          eq_of_text_eq _ _ same,
          completed_or_conflict-some found.status found.result s r (rw same at h),
        )
        | inr other ↦ cc (rw other at h)
      ]

  saved_of-replay :
      (c : IdempotencyContext) (found : Option Record) (s : Desk W) (r : Response)
      → IsReplay c found r
      → saved_of services c.request found s ≡ (ok (some r), s)
  unfolding assert_same_payload
  saved_of-replay c none s r h = absurd h
  saved_of-replay c (some found) s r (same, (done, result)) =
      rw (same, text_eq_refl, done, result) refl

  completed_or_conflict-state :
      (status : RecordStatus) (o : Option Response) (s : Desk W)
      → (completed_or_conflict services status o s).1 ≡ s
  completed_or_conflict-state completed (some r) s = refl
  completed_or_conflict-state completed none s = refl
  completed_or_conflict-state processing o s = refl

  saved_of-state :
      (payload : Json) (found : Option Record) (s : Desk W)
      → (saved_of services payload found s).1 ≡ s
  unfolding assert_same_payload
  saved_of-state payload none s = refl
  saved_of-state payload (some found) s =
      elim (Bool-cases (text_eq found.request_fingerprint (fingerprint services payload))) [
        | inl same ↦ rw same (completed_or_conflict-state found.status found.result s)
        | inr other ↦ rw other refl
      ]

  found-calls :
      (payload : Json) (r : Result (Option Record)) (s : Desk W)
      → (continue r (saved_of services payload) s).1.calls ≡ s.calls
  found-calls payload (ok found) s = ap (λ (t : Desk W). t.calls) (saved_of-state payload found s)
  found-calls payload (err e) s = refl

  -- The lookup of a saved result is one call.
  pub get_saved_result-calls :
      (c : IdempotencyContext) (s : Desk W)
      → (get_saved_result services c s).1.calls ≡ records_find_one (identity services c) ∷ s.calls
  unfolding get_saved_result
  get_saved_result-calls c s = found-calls c.request (services.record_find _ s.outside).0 _

  -- If the lookup of the record succeeds, a result is given back exactly when the record that was
  -- found has the fingerprint of this payload, is completed and holds that result; the lookup is
  -- the only call.
  pub get_saved_result-replays_iff :
      (c : IdempotencyContext) (found : Option Record) (s : Desk W) (w : W) (r : Response)
      → services.record_find (identity services c) s.outside ≡ (ok found, w)
      → (((get_saved_result services c s).0 ≡ ok (some r)) ↔ IsReplay c found r)
        × ((get_saved_result services c s).1.calls
            ≡ records_find_one (identity services c) ∷ s.calls)
  unfolding get_saved_result
  get_saved_result-replays_iff c found s w r h =
      let s1 : Desk W = record {
        calls = records_find_one (identity services c) ∷ s.calls;
        outside = w;
      } in
      (
        (
          (λ e. saved_of-some c found s1 r (rw h at e)),
          (λ replay. rw h (
              ap (λ (p : Result (Option Response) × Desk W). p.0)
                (saved_of-replay c found s1 r replay))),
        ),
        get_saved_result-calls c s,
      )
