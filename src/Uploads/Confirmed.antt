-- ===== src/Uploads/Confirmed.antt =====
-- Confirming an upload, and confirming it again.
use interiors_api_client.Common.{
  ◌≡◌, refl, ap, ◌∙◌, Option, none, some, ◌∷◌, inl, inr, Bool-cases, arith,
}
use interiors_api_client.Common.Text.{Text}
use interiors_api_client.Common.Exception.{ErrorCode, domain}
use interiors_api_client.Common.Exec.{ok, err, Result-cases, continue-eq-ok, pure}
use interiors_api_client.Common.Recorded.{Recorded}
use interiors_api_client.Uploads.{
  Status, confirmed, MediaAsset, MediaAssetDocument, Call, find_one, find_one_and_update, Services,
  to_domain, asset_of, is_confirmed, find_by_file_key, update_status, confirm_found, confirm_upload,
}

-- What is relied on of the collection: a read changes nothing; a document that an update answers with
-- has the new status, and is what the next read of the key answers with.
pub record KeepsStatus {W : Type 0} (io : Services W) : Type 0 where
  pub reads : (key : Text) (w : W) → (io.find_one key w).1 ≡ w
  pub updates :
      (key : Text) (status : Status) (w : W) (doc : MediaAssetDocument)
      → (io.find_one_and_update key status w).0 ≡ ok (some doc)
      → (doc.status ≡ status)
        × ((io.find_one key (io.find_one_and_update key status w).1).0 ≡ ok (some doc))

asset_of-eq-some :
    (o : Option MediaAssetDocument) (a : MediaAsset)
    → asset_of o ≡ some a
    → (doc : MediaAssetDocument) × (o ≡ some doc) × (a ≡ to_domain doc)
asset_of-eq-some none a h = cc
asset_of-eq-some (some doc) a h = (doc, refl, cc)

module _ {W : Type 0} (io : Services W) where
  updated_lem :
      (key : Text) (s : Recorded Call W) (asset a : MediaAsset)
      → (confirm_found io key (some asset) s).0 ≡ ok (some a)
      → (doc : MediaAssetDocument) × ((io.find_one_and_update key confirmed s.outside).0
          ≡ ok (some doc))
        × (a ≡ to_domain doc)
        × ((confirm_found io key (some asset) s).1 ≡ record {
          calls = find_one_and_update key confirmed ∷ s.calls;
          outside = (io.find_one_and_update key confirmed s.outside).1;
        })
  unfolding update_status
  updated_lem key s asset a h = elim (Bool-cases (is_confirmed asset.status)) [
    | inl e ↦ absurd (ground arith)
    | inr e ↦
        let (answer, got, mapped) =
          continue-eq-ok {S = Recorded Call W} (io.find_one_and_update key confirmed s.outside).0
            (λ doc. pure (asset_of doc))
            (record {
              calls = find_one_and_update key confirmed ∷ s.calls;
              outside = (io.find_one_and_update key confirmed s.outside).1;
            })
            (some a) (ground arith) in
        let (doc, there, same) = asset_of-eq-some answer a (ground arith) in
        (doc, got ∙ ap ok there, same, ground (arith, got))
  ]

  -- A confirmation that answers read an asset that was not confirmed, and updated it.
  confirm_upload-ok :
      (key : Text) (s : Recorded Call W) (a : MediaAsset)
      → (confirm_upload io key s).0 ≡ ok (some a)
      → (w : W) × (doc : MediaAssetDocument) × ((io.find_one_and_update key confirmed w).0
          ≡ ok (some doc))
        × (a ≡ to_domain doc)
        × ((confirm_upload io key s).1 ≡ record {
          calls = find_one_and_update key confirmed ∷ find_one key ∷ s.calls;
          outside = (io.find_one_and_update key confirmed w).1;
        })
  unfolding confirm_upload find_by_file_key
  confirm_upload-ok key s a h = elim (Result-cases (io.find_one key s.outside).0) [
    | inl (none, e) ↦ absurd (ground arith)
    | inl (some doc, e) ↦
        let read : Recorded Call W = record {
          calls = find_one key ∷ s.calls;
          outside = (io.find_one key s.outside).1;
        } in
        let (doc', got, same, after) = updated_lem key read (to_domain doc) a (rw e at h) in
        ((io.find_one key s.outside).1, doc', got, same, rw e after)
    | inr (x, e) ↦ absurd (ground arith)
  ]

  confirm_upload-again :
      (key : Text) (s : Recorded Call W) (doc : MediaAssetDocument)
      → (io.find_one key s.outside).0 ≡ ok (some doc)
      → doc.status ≡ confirmed
      → confirm_upload io key s ≡ (
        err (domain ErrorCode.asset_already_confirmed),
        record { calls = find_one key ∷ s.calls; outside = (io.find_one key s.outside).1 },
      )
  unfolding confirm_upload find_by_file_key to_domain
  confirm_upload-again key s doc e c = rw e (ground arith)

  -- If a confirmation answers with an asset, the asset is confirmed, and confirming the same key
  -- again, with nothing in between, is refused as already confirmed after reading the asset, and
  -- updates nothing, where the collection's reads see its updates.
  pub confirm_upload-twice :
      KeepsStatus io
      → (key : Text) (s : Recorded Call W) (a : MediaAsset)
      → (confirm_upload io key s).0 ≡ ok (some a)
      → (a.status ≡ confirmed)
        × (confirm_upload io key (confirm_upload io key s).1 ≡ (
          err (domain ErrorCode.asset_already_confirmed),
          record {
            calls = find_one key ∷ (confirm_upload io key s).1.calls;
            outside = (confirm_upload io key s).1.outside;
          },
        ))
  unfolding to_domain
  confirm_upload-twice keeps key s a h =
      let (w, doc, got, same, after) = confirm_upload-ok key s a h in
      let (status, seen) = keeps.updates key confirmed w doc got in
      let later = (confirm_upload io key s).1 in
      let out : later.outside ≡ (io.find_one_and_update key confirmed w).1 =
        ap (λ (t : Recorded Call W). t.outside) after in
      (
        ap (λ (b : MediaAsset). b.status) same ∙ status,
        confirm_upload-again key later doc (rw out seen) status
            ∙ ap
                (λ (v : W). (
                  err (domain ErrorCode.asset_already_confirmed),
                  record { calls = find_one key ∷ later.calls; outside = v },
                ))
                (keeps.reads key later.outside),
      )
