-- ===== src/Uploads/Records.antt =====
-- The records that are left of the uploads that URLs were given for.
use interiors_api_client.Common.{
  ◌≡◌, refl, ap, sym, subst, ◌∙◌, ℕ, inl, inr, List, [], ◌∷◌, ◌++◌, append_assoc, arith,
}
use interiors_api_client.Common.Text.{Text}
use interiors_api_client.Common.Exec.{ok, Result-cases, continue-eq-ok}
use interiors_api_client.Common.Recorded.{Recorded}
use interiors_api_client.Uploads.{
  Provider, UploadedBy, FileItem, PresignedUrl, Call, presign, create, Services, file_key_of,
  pending_asset, get_provider, upload_one, upload_all, generate_upload_url,
}

-- Each file with its URL: the calls of all, the newest first. The URL is asked for 60 seconds, under
-- a key that is made of the file and a new identifier, and then the pending asset is stored under
-- the same key.
pub data Uploaded (now : ℕ) (provider : Provider) (by : UploadedBy)
    : List FileItem → List PresignedUrl → List Call → Type 0 where
  none_yet : Uploaded now provider by [] [] []
  and_then :
      {files : List FileItem} {urls : List PresignedUrl} {calls : List Call} (file : FileItem)
      (url : PresignedUrl) (id : Text)
      → Uploaded now provider by files urls calls
      → Uploaded now provider by (file ∷ files) (url ∷ urls) (
          calls
          ++ (create (pending_asset now provider by file (file_key_of file id) url.public_url)
              ∷ presign provider (file_key_of file id) file.mime_type 60 file.file_size
              ∷ []))

module _ {W : Type 0} (io : Services W) (now : ℕ) (by : UploadedBy) where
  upload_one-ok :
      (provider : Provider) (file : FileItem) (s : Recorded Call W) (url : PresignedUrl)
      → (upload_one io now provider by file s).0 ≡ ok url
      → (id : Text) × ((upload_one io now provider by file s).1.calls
          ≡ create (pending_asset now provider by file (file_key_of file id) url.public_url)
            ∷ presign provider (file_key_of file id) file.mime_type 60 file.file_size
            ∷ s.calls)
  unfolding upload_one
  upload_one-ok provider file s url h = elim (Result-cases (io.uuid s.outside).0) [
    | inl (id, e) ↦ (id, ground arith)
    | inr (x, e) ↦ absurd (ground arith)
  ]

  upload_all-Uploaded :
      (provider : Provider) (files : List FileItem) (s : Recorded Call W) (urls : List PresignedUrl)
      → (upload_all io now provider by files s).0 ≡ ok urls
      → (made : List Call) × ((upload_all io now provider by files s).1.calls ≡ made ++ s.calls)
        × Uploaded now provider by files urls made
  unfolding upload_all
  upload_all-Uploaded provider [] s urls h =
      let e : [] ≡ urls = cc in ([], refl, subst (λ u. Uploaded now provider by [] u []) e none_yet)
  upload_all-Uploaded provider (file ∷ files) s urls h =
      let s' = (upload_one io now provider by file s).1 in
      let (url, e, h') = continue-eq-ok (upload_one io now provider by file s).0 _ s' urls h in
      let s'' = (upload_all io now provider by files s').1 in
      let (rest, e', h'') =
        continue-eq-ok (upload_all io now provider by files s').0 _ s'' urls h' in
      let (id, begun) = upload_one-ok provider file s url e in
      let (made, grown, uploaded) = upload_all-Uploaded provider files s' rest e' in
      let both : url ∷ rest ≡ urls = cc in
      let pair =
        create (pending_asset now provider by file (file_key_of file id) url.public_url)
        ∷ presign provider (file_key_of file id) file.mime_type 60 file.file_size
        ∷ [] in
      (
        made ++ pair,
        rw (e, e') (grown ∙ ap (λ cs. made ++ cs) begun ∙ sym (append_assoc made pair s.calls)),
        subst (λ u. Uploaded now provider by (file ∷ files) u (made ++ pair)) both
            (and_then file url id uploaded),
      )

  -- If all URLs are given, the provider was one of the two that are supported, there is a URL for each
  -- file, and the calls that were made are, for one file after the other, the request of the URL and
  -- then the storing of the file's pending asset under the same key with the URL's public address.
  pub generate_upload_url-Uploaded :
      (files : List FileItem) (provider_type : Text) (s : Recorded Call W)
      (urls : List PresignedUrl)
      → (generate_upload_url io now files provider_type by s).0 ≡ ok urls
      → (provider : Provider) × (made : List Call) × (get_provider provider_type ≡ ok provider)
        × ((generate_upload_url io now files provider_type by s).1.calls ≡ made ++ s.calls)
        × Uploaded now provider by files urls made
  unfolding generate_upload_url
  generate_upload_url-Uploaded files provider_type s urls h =
      let (provider, e, h') = continue-eq-ok (get_provider provider_type) _ s urls h in
      let (made, grown, uploaded) = upload_all-Uploaded provider files s urls h' in
      (provider, made, e, rw e grown, uploaded)
