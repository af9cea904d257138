-- ===== src/Uploads/Storage/Linked.antt =====
-- What `UploadsService` records over the two storages (src/modules/uploads and
-- src/infrastructure/storage/adapters).
use interiors_api_client.Common.{ℕ, ◌≡◌, ◌≢◌, refl, Option, List, [], ◌∷◌, arith}
use interiors_api_client.Common.Text.{Text}
use interiors_api_client.Common.Exception.{Exception, ErrorCode, infrastructure}
use interiors_api_client.Common.Exec.{
  Exec, Result, ok, err, pure, throw, handle_result, try_catch, ◌>>=◌, ◌>>◌,
}
use interiors_api_client.Common.Recorded.{
  Recorded, call, Adds, OnlyNew, OnlyNew-refl, continue-OnlyNew, Adds-call, Adds-pure, Adds-throw,
  Adds-bind, Adds-lift_bind, Adds-try_catch,
}
use interiors_api_client.Uploads.{
  PresignedUrl, Provider, r2, s3, gcs, Services, Call, UploadedBy, FileItem, file_key_of,
  get_provider, upload_one, upload_all, generate_upload_url, presign, create, pending_asset,
  create_pending, to_persistence,
}
use interiors_api_client.Uploads.Storage.{
  S3Package, R2Adapter, Url, GcpPackage, GcpAdapter, presign_r2, presign_gcp, presign_by, stored,
  link,
}

module _ {W : Type 0} (s3_client : S3Package W) (r : R2Adapter) (parse_url : Text → Option Url)
    (config : Text → Option Text) (storage : GcpPackage W) (g : GcpAdapter)
    (base : Services W) where
  abbrev pub services : Services W
  services = stored s3_client r parse_url config storage g base

  -- The asset's public URL is its key under the public domain of its provider.
  abbrev pub IsLinkedBy : Provider → Text → Text → Type 0
  IsLinkedBy r2 public_url key = public_url ≡ link r.public_domain key
  IsLinkedBy gcs public_url key = public_url ≡ link g.public_domain key
  IsLinkedBy s3 public_url key = ⊥

  -- A call that records an asset records one that is linked to its file.
  abbrev pub IsLinked : Call → Type 0
  IsLinked (create asset) = IsLinkedBy asset.provider asset.public_url asset.file_key
  IsLinked _ = Unit

  presign_r2-link :
      (key type : Text) (seconds size : ℕ) (w : W) (p : PresignedUrl)
      → (presign_r2 s3_client r key type seconds size w).0 ≡ ok p
      → p.public_url ≡ link r.public_domain key
  unfolding presign_r2
  presign_r2-link key type seconds size w p h = ground arith

  presign_gcp-link :
      (key type : Text) (seconds : ℕ) (w : W) (p : PresignedUrl)
      → (presign_gcp parse_url config storage g key type seconds w).0 ≡ ok p
      → p.public_url ≡ link g.public_domain key
  unfolding presign_gcp
  presign_gcp-link key type seconds w p h = ground arith

  presign_by-link :
      (provider : Provider) (key type : Text) (seconds size : ℕ) (w : W) (p : PresignedUrl)
      → s3 ≢ provider
      → (presign_by s3_client r parse_url config storage g base provider key type seconds size w).0
        ≡ ok p
      → IsLinkedBy provider p.public_url key
  presign_by-link r2 key type seconds size w p other h = presign_r2-link key type seconds size w p h
  presign_by-link gcs key type seconds size w p other h = presign_gcp-link key type seconds w p h
  presign_by-link s3 key type seconds size w p other h = absurd (other refl)

  -- The request of the URLs of one file.
  abbrev ask : Provider → FileItem → Text → Exec (Recorded Call W) PresignedUrl
  ask provider file key =
      try_catch
        (call (presign provider key file.mime_type 60 file.file_size)
          (services.presign provider key file.mime_type 60 file.file_size))
        (λ e. throw (infrastructure ErrorCode.presigned_url_failed 500))

  ask-Adds :
      (provider : Provider) (file : FileItem) (key : Text)
      → Adds {A = PresignedUrl} IsLinked (ask provider file key)
  ask-Adds provider file key =
      Adds-try_catch
        (Adds-call (presign provider key file.mime_type 60 file.file_size)
          (services.presign provider key file.mime_type 60 file.file_size) tt)
        (λ e. Adds-throw (infrastructure ErrorCode.presigned_url_failed 500))

  rethrown-eq-ok :
      {S A : Type 0} (r : Result A) (e : Exception) (s : S) (a : A)
      → (handle_result r (λ _. throw e) s).0 ≡ ok a
      → r ≡ ok a
  rethrown-eq-ok (ok b) e s a h = h
  rethrown-eq-ok (err x) e s a h = absurd (cc)

  -- The steps of one file, once it has its key.
  with_key-Adds :
      (now : ℕ) (provider : Provider) (by : UploadedBy) (file : FileItem) (key : Text)
      → s3 ≢ provider
      → Adds IsLinked (do
        result ← ask provider file key
        let asset = pending_asset now provider by file key result.public_url
        call (create asset) (services.create (to_persistence asset))
        pure {S = Recorded Call W} result)
  unfolding pending_asset create_pending
  with_key-Adds now provider by file key other = record {
    at = λ s.
        continue-OnlyNew (ask provider file key s).0 _ (ask provider file key s).1 s.calls
          ((ask-Adds provider file key).at s)
          (λ result e.
            let asset = pending_asset now provider by file key result.public_url in
            Adds-bind
              (Adds-call (create asset) (services.create (to_persistence asset)) (
                presign_by-link provider key file.mime_type 60 file.file_size s.outside result other
                  (rethrown-eq-ok _ _ _ result e)))
              (λ _. Adds-pure result));
  }

  upload_one-Adds :
      (now : ℕ) (provider : Provider) (by : UploadedBy) (file : FileItem)
      → s3 ≢ provider
      → Adds IsLinked (upload_one services now provider by file)
  unfolding upload_one
  upload_one-Adds now provider by file other =
      Adds-bind (record { at = λ s. OnlyNew-refl s.calls })
        (λ id. with_key-Adds now provider by file (file_key_of file id) other)

  upload_all-Adds :
      (now : ℕ) (provider : Provider) (by : UploadedBy) (files : List FileItem)
      → s3 ≢ provider
      → Adds IsLinked (upload_all services now provider by files)
  unfolding upload_all
  upload_all-Adds now provider by [] other = Adds-pure []
  upload_all-Adds now provider by (file ∷ files) other =
      Adds-bind (upload_one-Adds now provider by file other) (λ result.
        Adds-bind (upload_all-Adds now provider by files other)
          (λ results. Adds-pure (result ∷ results)))

  get_provider-ne-s3 :
      (t : Text) (provider : Provider) → get_provider t ≡ ok provider → s3 ≢ provider
  unfolding get_provider
  get_provider-ne-s3 t provider h e = ground arith

  -- Over the two storages, whatever these answer and at whatever file an upload fails, every asset
  -- that `generateUploadUrl` records has for its public URL its own key under the public domain that
  -- its storage was constructed with.
  pub generate_upload_url-IsLinked :
      (now : ℕ) (files : List FileItem) (provider_type : Text) (by : UploadedBy)
      (s : Recorded Call W)
      → OnlyNew IsLinked s.calls (generate_upload_url services now files provider_type by s).1.calls
  unfolding generate_upload_url
  generate_upload_url-IsLinked now files provider_type by s =
      (Adds-lift_bind (λ provider e.
          upload_all-Adds now provider by files (get_provider-ne-s3 provider_type provider e))).at
        s
