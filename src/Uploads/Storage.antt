-- ===== src/Uploads/Storage.antt =====
-- The storages (src/infrastructure/storage/adapters): `CloudflareR2Adapter` and `GcpStorageAdapter`,
-- and `MediaService` (src/modules/media). The packages that sign URLs and delete files, the parser
-- of URLs, the generator of identifiers and the clock are parameters.
pub mod Domain
pub mod Linked
use interiors_api_client.Common.{
  ℕ, ◌+◌, ◌*◌, Bool, true, false, not, ◌&&◌, Option, none, some, [], ◌∷◌, ◌++◌, if◌then◌else◌, ◌==◌,
}
use interiors_api_client.Common.Text.{Text, text, text_eq}
use interiors_api_client.Common.Exception.{ErrorCode, infrastructure, internal_server_error, error}
use interiors_api_client.Common.Exec.{
  Exec, Result, ok, err, and_then, pure, throw, gets, when, try_catch, ◌>>=◌, ◌>>◌,
}
use interiors_api_client.Uploads.{PresignedUrl, Provider, r2, s3, gcs, Services}

-- `configService.getOrThrow`, which lets an empty value pass
abbrev pub get_or_throw : Option Text → Result Text
get_or_throw none = err error
get_or_throw (some v) = ok v

-- What a signed URL allows: one object, its type, and its size where it is given.
pub record PutObject : Type 0 where
  pub bucket : Text
  pub key : Text
  pub content_type : Text
  pub content_length : Option ℕ

-- `@aws-sdk/client-s3` and its presigner; a time to live is in seconds.
pub record S3Package (W : Type 0) : Type 0 where
  pub get_signed_url : PutObject → (expires_in : ℕ) → Exec W Text
  pub delete_object : (bucket key : Text) → Exec W (Unit {0})

pub record R2Adapter : Type 0 where
  pub endpoint : Text
  pub access_key_id : Text
  pub secret_access_key : Text
  pub bucket : Text
  pub public_domain : Text

-- The constructor of `CloudflareR2Adapter`
unfoldable pub construct_r2 : (Text → Option Text) → Result R2Adapter
construct_r2 config = and_then (get_or_throw (config (text "R2_ACCOUNT_ID"))) (λ account_id.
    and_then (get_or_throw (config (text "R2_ACCESS_KEY_ID"))) (λ access_key_id.
      and_then (get_or_throw (config (text "R2_SECRET_ACCESS_KEY"))) (λ secret_access_key.
        and_then (get_or_throw (config (text "R2_BUCKET_NAME"))) (λ bucket.
          and_then (get_or_throw (config (text "R2_PUBLIC_DOMAIN"))) (λ public_domain. ok (record {
            endpoint = text "https://" ++ (account_id ++ text ".r2.cloudflarestorage.com");
            access_key_id = access_key_id;
            secret_access_key = secret_access_key;
            bucket = bucket;
            public_domain = public_domain;
          }))))))

-- `${publicDomain}/${fileKey}`
abbrev pub link : Text → Text → Text
link domain key = domain ++ (text "/" ++ key)

-- `fileSize ? { ContentLength: fileSize } : {}`
abbrev pub content_length_of : ℕ → Option ℕ
content_length_of n = if n == 0 then none else some n

module _ {W : Type 0} (s3_client : S3Package W) (r : R2Adapter) where
  -- `CloudflareR2Adapter.generatePresignedUrl`
  unfoldable pub presign_r2 :
      (file_key mime_type : Text) (seconds file_size : ℕ) → Exec W PresignedUrl
  presign_r2 file_key mime_type seconds file_size =
      try_catch
        (do
          upload_url ←
              s3_client.get_signed_url
                (record {
                  bucket = r.bucket;
                  key = file_key;
                  content_type = mime_type;
                  content_length = content_length_of file_size;
                })
                seconds
          pure (record { upload_url = upload_url; public_url = link r.public_domain file_key }))
        (λ _. throw (infrastructure ErrorCode.presigned_url_failed 503))

  -- `CloudflareR2Adapter.deleteFile`
  unfoldable pub delete_file : Text → Exec W (Unit {0})
  delete_file file_key =
      try_catch (s3_client.delete_object r.bucket file_key)
        (λ _. throw (infrastructure ErrorCode.invalid_file_name 503))

-- What the parser of URLs finds.
pub record Url : Type 0 where
  pub protocol : Text
  pub hostname : Text

pub record GcpAdapter : Type 0 where
  pub project_id : Text
  pub client_email : Text
  pub private_key : Text
  pub bucket_name : Text
  pub public_domain : Text

-- `replace(/\\n/g, "\n")`: a backslash and an `n` become one line feed.
unfoldable pub unescape_newlines : Text → Text
unescape_newlines [] = []
unescape_newlines (c ∷ []) = c ∷ []
unescape_newlines (c ∷ d ∷ s) =
    let skipped = unescape_newlines s in
    let rest = unescape_newlines (d ∷ s) in if c == 92 && d == 110 then 10 ∷ skipped else c ∷ rest

-- `configService.get(name, fallback)`: only an undefined value is replaced.
abbrev pub get_or : Option Text → Text → Text
get_or none fallback = fallback
get_or (some v) fallback = v

-- The constructor of `GcpStorageAdapter`
unfoldable pub construct_gcp : (Text → Option Text) → Result GcpAdapter
unfolding unescape_newlines
construct_gcp config = and_then (get_or_throw (config (text "GCP_PROJECT_ID"))) (λ project_id.
    and_then (get_or_throw (config (text "GCS_CLIENT_EMAIL"))) (λ client_email.
      and_then (get_or_throw (config (text "GCS_PRIVATE_KEY"))) (λ private_key.
        and_then (get_or_throw (config (text "GCS_BUCKET_NAME"))) (λ bucket_name. ok (record {
          project_id = project_id;
          client_email = client_email;
          private_key = unescape_newlines private_key;
          bucket_name = bucket_name;
          public_domain =
              get_or (config (text "GCS_PUBLIC_DOMAIN"))
                (text "https://storage.googleapis.com/" ++ bucket_name);
        })))))

-- `@google-cloud/storage`: a signed URL for writing an object of a type until a time, in
-- milliseconds; and the clock.
pub record GcpPackage (W : Type 0) : Type 0 where
  pub get_signed_url : (bucket key content_type : Text) (expires : ℕ) → Exec W Text
  pub now : W → ℕ

-- `url.protocol === "https:"`, and a host that is the same as in the configured domain
abbrev pub is_https : Url → Bool
is_https u = text_eq u.protocol (text "https:")

abbrev pub same_https_host : Url → Option Url → Bool
same_https_host u none = false
same_https_host u (some custom) = is_https custom && text_eq u.hostname custom.hostname

module _ (parse_url : Text → Option Url) (config : Text → Option Text) where
  -- `GCS_PUBLIC_DOMAIN`, which must be given, not empty and a URL
  abbrev pub custom_url : Option Text → Option Url
  custom_url none = none
  custom_url (some []) = none
  custom_url (some (c ∷ s)) = parse_url (c ∷ s)

  abbrev pub allowed_url : Option Url → Bool
  allowed_url none = false
  allowed_url (some u) =
      if is_https u
      then if text_eq u.hostname (text "storage.googleapis.com")
        then true
        else same_https_host u (custom_url (config (text "GCS_PUBLIC_DOMAIN")))
      else false

  -- `isAllowedPublicDomain`
  unfoldable pub is_allowed_public_domain : Text → Bool
  is_allowed_public_domain value = allowed_url (parse_url value)

  module _ {W : Type 0} (storage : GcpPackage W) (g : GcpAdapter) where
    -- `GcpStorageAdapter.generatePresignedUrl`, which takes no size of the file.
    unfoldable pub presign_gcp : (file_key mime_type : Text) (seconds : ℕ) → Exec W PresignedUrl
    unfolding is_allowed_public_domain
    presign_gcp file_key mime_type seconds =
        try_catch
          (do
            now ← gets storage.now
            upload_url ←
                storage.get_signed_url g.bucket_name file_key mime_type (now + seconds * 1000)
            when (not (is_allowed_public_domain g.public_domain)) (throw error)
            pure (record { upload_url = upload_url; public_url = link g.public_domain file_key }))
          (λ _. throw (infrastructure ErrorCode.presigned_url_failed 503))

-- `originalFilename.split(".").pop()`: what follows the last point, or the whole name.
abbrev pub part_from : Text → Text → Text
part_from [] found = found
part_from (c ∷ s) found = part_from s (if c == 46 then s else found)

unfoldable pub last_part : Text → Text
last_part s = part_from s s

module _ {W : Type 0} (s3_client : S3Package W) (uuid : Exec W Text)
    (bucket_name public_domain : Text) where
  -- `MediaService.generateUploadUrl`, with one exception for every failure.
  unfoldable pub generate_media_url : (original_filename content_type : Text) → Exec W PresignedUrl
  unfolding last_part
  generate_media_url original_filename content_type =
      try_catch
        (do
          id ← uuid
          let file = text "catalog/" ++ (id ++ (text "." ++ last_part original_filename))
          signed_url ←
              s3_client.get_signed_url
                (record {
                  bucket = bucket_name;
                  key = file;
                  content_type = content_type;
                  content_length = none;
                })
                900
          pure (record { upload_url = signed_url; public_url = link public_domain file }))
        (λ _. throw internal_server_error)

-- The storages of `UploadsService`: each provider by its adapter, with the providers that have none
-- left to `base`.
module _ {W : Type 0} (s3_client : S3Package W) (r : R2Adapter) (parse_url : Text → Option Url)
    (config : Text → Option Text) (storage : GcpPackage W) (g : GcpAdapter)
    (base : Services W) where
  abbrev pub presign_by : Provider → Text → Text → ℕ → ℕ → Exec W PresignedUrl
  presign_by r2 = presign_r2 s3_client r
  presign_by gcs = λ key type seconds size. presign_gcp parse_url config storage g key type seconds
  presign_by s3 = base.presign s3

  abbrev pub stored : Services W
  stored = record base { presign = presign_by }
