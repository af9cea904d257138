-- ===== src/Quotes/RoundTrip.antt =====
-- A result that is saved under an idempotency key, and what a later request with the key gets.
use interiors_api_client.Common.{
  ◌≡◌, refl, ap, ◌∙◌, inl, inr, some, Bool-cases, ◌==◌, ==_iff, if◌then◌else◌,
}
use interiors_api_client.Common.Text.{Text, text_eq}
use interiors_api_client.Common.Exec.{ok, err, Result-cases}
use interiors_api_client.Quotes.Desk.{Identity, Record, completed, Response, Desk, Services}
use interiors_api_client.Quotes.Idempotency.{
  IdempotencyContext, fingerprint, identity, assert_same_payload, mismatch, get_saved_result,
  save_result,
}

abbrev pub completed_record : Identity → Text → Response → Record
completed_record i f r = record {
  identity = i;
  request_fingerprint = f;
  status = completed;
  result = some r;
}

-- The collection of records, as the source relies on it: once an update has matched one record,
-- that record is found by its identity, as it was updated.
pub record KeepsResults {W : Type 0} (services : Services W) : Type 0 where
  pub finds :
      (i : Identity) (f : Text) (r : Response) (w : W)
      → (services.record_update i f r w).0 ≡ ok 1
      → let w1 = (services.record_update i f r w).1 in
        services.record_find i w1 ≡ (ok (some (completed_record i f r)), w1)

module _ {W : Type 0} (services : Services W) where
  pub matched_one :
      (c : IdempotencyContext) (r : Response) (s : Desk W)
      → (save_result services c r s).0 ≡ ok tt
      → ((services.record_update
            (identity services c)
            (fingerprint services c.request)
            r
            s.outside).0
          ≡ ok 1)
        × ((save_result services c r s).1.outside
            ≡ (services.record_update
                (identity services c)
                (fingerprint services c.request)
                r
                s.outside).1)
  unfolding save_result
  matched_one c r s h =
      elim (Result-cases
        (services.record_update (identity services c) (fingerprint services c.request) r
          s.outside).0) [
            | inr (e, f) ↦ cc (rw f at h)
            | inl (n, f) ↦ elim (Bool-cases (n == 1)) [
              | inl one ↦ (f ∙ ap ok ((==_iff n 1).0 one), rw (f, one) refl)
              | inr other ↦ cc (rw (f, other) at h)
            ]
          ]

  -- The lookup after the update finds the record as it was updated.
  found_again :
      KeepsResults services
      → (c d : IdempotencyContext) (r : Response) (s : Desk W)
      → (save_result services c r s).0 ≡ ok tt
      → identity services d ≡ identity services c
      → services.record_find (identity services d) (save_result services c r s).1.outside ≡ (
        ok (some (completed_record (identity services c) (fingerprint services c.request) r)),
        (services.record_update
            (identity services c)
            (fingerprint services c.request)
            r
            s.outside).1,
      )
  found_again laws c d r s h same =
      let (one, out) = matched_one c r s h in
      rw (same, out)
        (laws.finds (identity services c) (fingerprint services c.request) r s.outside one)

  -- If the collection keeps results and a result was saved under a key, then a later request whose
  -- identity is the same gets that result back if its payload has the same fingerprint, and is
  -- refused with a conflict if it has another.
  pub get_saved_result-save_result :
      KeepsResults services
      → (c d : IdempotencyContext) (r : Response) (s : Desk W)
      → (save_result services c r s).0 ≡ ok tt
      → identity services d ≡ identity services c
      → (get_saved_result services d (save_result services c r s).1).0 ≡ (
          if text_eq (fingerprint services c.request) (fingerprint services d.request)
          then ok (some r)
          else err (mismatch services))
  unfolding get_saved_result assert_same_payload
  get_saved_result-save_result laws c d r s h same =
      let looked = found_again laws c d r s h same in
      elim (Bool-cases
        (text_eq (fingerprint services c.request) (fingerprint services d.request))) [
          | inl agree ↦ rw (looked, agree) refl
          | inr differ ↦ rw (looked, differ) refl
        ]
