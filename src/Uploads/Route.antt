-- ===== src/Uploads/Route.antt =====
-- The routes of uploads: `UploadsController` (src/modules/uploads/controllers/uploads.controller.ts)
-- behind `RolesGuard`, which the application runs before the validation of a body. The validation
-- by the framework's pipe is a parameter; the throttler, which runs first, is left out.
pub mod Owned
use interiors_api_client.Common.{ℕ, Bool, true, false, Option, none, some, List, [], ◌∷◌}
use interiors_api_client.Common.Text.{Text, text}
use interiors_api_client.Common.Exception.{bad_request, unauthorized, error}
use interiors_api_client.Common.Exec.{Exec, Result, ok, err, pure, throw, lift, ◌>>=◌, ◌>>◌}
use interiors_api_client.Common.Recorded.{Recorded}
use interiors_api_client.Users.Roles.{can_activate}
use interiors_api_client.Uploads.{
  Status, UploadedBy, MediaAsset, FileItem, PresignedUrl, Call, Services, generate_upload_url,
  confirm_upload,
}

-- `GenerateUrlDto`
pub record GenerateUrl : Type 0 where
  pub files : List FileItem
  pub provider : Text

-- `req.session?.user`
pub record SessionUser : Type 0 where
  pub user_id : Text
  pub name : Option Text
  pub role : Text

-- A session and a body. What `ValidationPipe` makes of the body for a class is a parameter, `none`
-- where it has errors.
pub record HttpRequest (B : Type 0) : Type 0 where
  pub user : Option SessionUser
  pub body : B

pub record Confirmation : Type 0 where
  pub file_key : Text
  pub public_url : Text
  pub status : Status

abbrev pub role_of : Option SessionUser → Option Text
role_of none = none
role_of (some u) = some u.role

-- The guard, for a route with `@Roles("ADMIN")`
abbrev pub admin_only : Option SessionUser → Result Bool
admin_only user = can_activate (record {
  is_public = none;
  required_roles = some (text "ADMIN" ∷ []);
  user_role = role_of user;
})

abbrev pub valid_or : {D : Type 0} → Option D → Result D
valid_or none = err bad_request
valid_or (some d) = ok d

abbrev pub uploader : SessionUser → UploadedBy
uploader u = record { admin_id = u.user_id; admin_name = u.name }

-- What is shown of the asset; the properties of an absent one cannot be read.
abbrev pub confirmation : Option MediaAsset → Result Confirmation
confirmation none = err error
confirmation (some a) =
    ok (record { file_key = a.file_key; public_url = a.public_url; status = a.status })

module _ {W : Type 0} (io : Services W) where
  -- `getPresignedUrl`
  unfoldable pub get_presigned_url :
      ℕ → GenerateUrl → Option SessionUser → Exec (Recorded Call W) (List PresignedUrl)
  get_presigned_url now dto none = throw unauthorized
  get_presigned_url now dto (some u) =
      generate_upload_url io now dto.files dto.provider (uploader u)

  -- `confirmUpload`, for `dto.fileKey`
  unfoldable pub confirm : Text → Exec (Recorded Call W) Confirmation
  confirm file_key = do asset ← confirm_upload io file_key; lift (confirmation asset)

  module _ {B : Type 0} (url_dto : B → Option GenerateUrl) (key_dto : B → Option Text) where
    -- `POST uploads/presigned-url`
    unfoldable pub presign_route : ℕ → HttpRequest B → Exec (Recorded Call W) (List PresignedUrl)
    unfolding get_presigned_url
    presign_route now q = do
      admitted ← lift (admin_only q.user)
      dto ← lift (valid_or (url_dto q.body))
      get_presigned_url now dto q.user

    -- `POST uploads/confirm`
    unfoldable pub confirm_route : HttpRequest B → Exec (Recorded Call W) Confirmation
    unfolding confirm
    confirm_route q = do
      admitted ← lift (admin_only q.user)
      file_key ← lift (valid_or (key_dto q.body))
      confirm file_key
