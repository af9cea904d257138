-- ===== src/Uploads.antt =====
-- Uploads of media (src/modules/uploads): the asset and its document, `UploadsService`, and the choice
-- of a storage by `StorageFactory` (src/infrastructure/storage). The storages, the collection and
-- the generator of identifiers are parameters.
mod Tests
pub mod Records
pub mod Confirmed
pub mod Storage
pub mod Route
use interiors_api_client.Common.{
  ℕ, Bool, true, false, Option, none, some, List, [], ◌∷◌, ◌++◌, if◌then◌else◌, ◌==◌,
}
use interiors_api_client.Common.Text.{Text, text, text_eq}
use interiors_api_client.Common.Exception.{Exception, ErrorCode, domain, infrastructure, error}
use interiors_api_client.Common.Exec.{
  Exec, Result, ok, err, pure, throw, lift, try_catch, ◌>>=◌, ◌>>◌,
}
use interiors_api_client.Common.Recorded.{Recorded, call}

-- `AssetStatus`
pub data Status : Type 0 where
  pending confirmed failed : Status

-- `Provider`
pub data Provider : Type 0 where
  r2 s3 gcs : Provider

-- `UploadedBy`; the name is undefined where the mapper finds none.
pub record UploadedBy : Type 0 where
  pub admin_id : Text
  pub admin_name : Option Text

-- `MediaAssetProps`; the folder is always `catalog`. A date is a number of milliseconds.
pub record MediaAsset : Type 0 where
  pub public_url : Text
  pub file_key : Text
  pub file_name : Text
  pub mime_type : Text
  pub file_size : ℕ
  pub category : Text
  pub provider : Provider
  pub uploaded_by : UploadedBy
  pub created_at : ℕ
  pub updated_at : ℕ
  pub status : Status

-- `MediaAsset.createPending`
unfoldable pub create_pending : MediaAsset → MediaAsset
create_pending props = record props { status = pending }

-- `MediaAsset.confirm`
unfoldable pub confirm : MediaAsset → MediaAsset
confirm a = record a { status = confirmed }

-- `MediaAsset.fail`
unfoldable pub fail : MediaAsset → MediaAsset
fail a = record a { status = failed }

-- `MediaAssetDocument`: what the schema keeps of an asset. It declares `adminName` for the uploader
-- and no `name`.
pub record MediaAssetDocument : Type 0 where
  pub public_url : Text
  pub file_key : Text
  pub file_name : Text
  pub mime_type : Text
  pub file_size : ℕ
  pub category : Text
  pub provider : Provider
  pub admin_id : Text
  pub admin_name : Option Text
  pub name : Option Text
  pub created_at : ℕ
  pub updated_at : ℕ
  pub status : Status

-- `MediaAssetMapper.toDomain`
unfoldable pub to_domain : MediaAssetDocument → MediaAsset
to_domain doc = record {
  public_url = doc.public_url;
  file_key = doc.file_key;
  file_name = doc.file_name;
  mime_type = doc.mime_type;
  file_size = doc.file_size;
  category = doc.category;
  provider = doc.provider;
  uploaded_by = record { admin_id = doc.admin_id; admin_name = doc.name };
  created_at = doc.created_at;
  updated_at = doc.updated_at;
  status = doc.status;
}

-- `MediaAssetMapper.toPersistence`, and the fields that the schema keeps of it
unfoldable pub to_persistence : MediaAsset → MediaAssetDocument
to_persistence a = record {
  public_url = a.public_url;
  file_key = a.file_key;
  file_name = a.file_name;
  mime_type = a.mime_type;
  file_size = a.file_size;
  category = a.category;
  provider = a.provider;
  admin_id = a.uploaded_by.admin_id;
  admin_name = a.uploaded_by.admin_name;
  name = none;
  created_at = a.created_at;
  updated_at = a.updated_at;
  status = a.status;
}

-- `FileItemDto`
pub record FileItem : Type 0 where
  pub file_name : Text
  pub mime_type : Text
  pub file_size : ℕ
  pub category : Text

-- `PresignedUrlResponse`
pub record PresignedUrl : Type 0 where
  pub upload_url : Text
  pub public_url : Text

pub data Call : Type 0 where
  presign : (provider : Provider) (file_key mime_type : Text) (seconds file_size : ℕ) → Call
  create : MediaAsset → Call
  find_one : Text → Call
  find_one_and_update : Text → Status → Call

pub record Services (W : Type 0) : Type 0 where
  pub uuid : Exec W Text
  pub presign : Provider → Text → Text → ℕ → ℕ → Exec W PresignedUrl
  pub create : MediaAssetDocument → Exec W MediaAssetDocument
  pub find_one : Text → Exec W (Option MediaAssetDocument)
  pub find_one_and_update : Text → Status → Exec W (Option MediaAssetDocument)

-- `StorageFactory.getProvider`, for the text that the client sends
unfoldable pub get_provider : Text → Result Provider
get_provider t =
    if text_eq t (text "r2")
    then ok r2
    else if text_eq t (text "gcs")
    then ok gcs
    else err (infrastructure ErrorCode.storage_provider_not_supported 400)

-- The part before the first `/`, and the part up to the next one if there is a `/`.
unfoldable pub before_slash : Text → Text
before_slash [] = []
before_slash (c ∷ s) = let rest = before_slash s in if c == 47 then [] else c ∷ rest

unfoldable pub after_slash : Text → Option Text
unfolding before_slash
after_slash [] = none
after_slash (c ∷ s) = let rest = after_slash s in if c == 47 then some (before_slash s) else rest

abbrev pub folder_type : Text → Text
folder_type base =
    if text_eq base (text "image")
    then text "images"
    else if text_eq base (text "video")
    then text "videos"
    else text "documents"

-- `undefined` in a template literal.
abbrev pub shown : Option Text → Text
shown none = text "undefined"
shown (some s) = s

-- `fileKey`
unfoldable pub file_key_of : FileItem → Text → Text
unfolding before_slash after_slash
file_key_of file id =
    text "catalog/"
    ++ (folder_type (before_slash file.mime_type)
        ++ (text "/"
            ++ (file.category
                ++ (text "/" ++ (id ++ (text "-" ++ shown (after_slash file.mime_type)))))))

-- The pending record of a file.
unfoldable pub pending_asset :
    (now : ℕ) → Provider → UploadedBy → FileItem → (file_key public_url : Text) → MediaAsset
unfolding create_pending
pending_asset now provider by file file_key public_url = create_pending (record {
  public_url = public_url;
  file_key = file_key;
  file_name = file.file_name;
  mime_type = file.mime_type;
  file_size = file.file_size;
  category = file.category;
  provider = provider;
  uploaded_by = by;
  created_at = now;
  updated_at = now;
  status = pending;
})

abbrev pub asset_of : Option MediaAssetDocument → Option MediaAsset
asset_of none = none
asset_of (some doc) = some (to_domain doc)

abbrev pub is_confirmed : Status → Bool
is_confirmed confirmed = true
is_confirmed _ = false

module _ {W : Type 0} (io : Services W) where
  -- The body of the loop of `generateUploadUrl`, at the time `now`
  unfoldable pub upload_one :
      ℕ → Provider → UploadedBy → FileItem → Exec (Recorded Call W) PresignedUrl
  unfolding file_key_of pending_asset to_persistence
  upload_one now provider by file = do
    id ← λ s. let (r, w) = io.uuid s.outside in (r, record s { outside = w })
    let file_key = file_key_of file id
    result ←
        try_catch
          (call (presign provider file_key file.mime_type 60 file.file_size)
            (io.presign provider file_key file.mime_type 60 file.file_size))
          (λ e. throw (infrastructure ErrorCode.presigned_url_failed 500))
    let asset = pending_asset now provider by file file_key result.public_url
    call (create asset) (io.create (to_persistence asset))
    pure result

  -- The loop of `generateUploadUrl`
  unfoldable pub upload_all :
      ℕ → Provider → UploadedBy → List FileItem → Exec (Recorded Call W) (List PresignedUrl)
  unfolding upload_one
  upload_all now provider by [] = pure []
  upload_all now provider by (file ∷ files) = do
    result ← upload_one now provider by file
    results ← upload_all now provider by files
    pure (result ∷ results)

  -- `generateUploadUrl`
  unfoldable pub generate_upload_url :
      ℕ → List FileItem → Text → UploadedBy → Exec (Recorded Call W) (List PresignedUrl)
  unfolding get_provider upload_all
  generate_upload_url now files provider_type by = do
    provider ← lift (get_provider provider_type)
    upload_all now provider by files

  -- `MediaAssetMongoRepository.findByFileKey`
  unfoldable pub find_by_file_key : Text → Exec (Recorded Call W) (Option MediaAsset)
  find_by_file_key key = do doc ← call (find_one key) (io.find_one key); pure (asset_of doc)

  -- `MediaAssetMongoRepository.updateStatus`
  unfoldable pub update_status : Text → Status → Exec (Recorded Call W) (Option MediaAsset)
  update_status key status = do
    doc ← call (find_one_and_update key status) (io.find_one_and_update key status)
    pure (asset_of doc)

  abbrev pub confirm_found : Text → Option MediaAsset → Exec (Recorded Call W) (Option MediaAsset)
  confirm_found key none = throw (domain ErrorCode.asset_not_found)
  confirm_found key (some asset) =
      if is_confirmed asset.status
      then throw (domain ErrorCode.asset_already_confirmed)
      else update_status key confirmed

  -- `confirmUpload`; the answer is empty if the asset is gone by the time of the update.
  unfoldable pub confirm_upload : Text → Exec (Recorded Call W) (Option MediaAsset)
  unfolding find_by_file_key update_status
  confirm_upload key = do asset ← find_by_file_key key; confirm_found key asset
