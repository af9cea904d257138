-- ===== src/Uploads/Tests.antt =====
-- A collection that holds one document.
mod Storages
use interiors_api_client.Common.{◌≡◌, refl, Option, none, some, List, [], ◌∷◌}
use interiors_api_client.Common.Text.{Text, text, text_eq}
use interiors_api_client.Common.Exception.{ErrorCode, domain}
use interiors_api_client.Common.Exec.{ok, err}
use interiors_api_client.Common.Recorded.{Recorded}
use interiors_api_client.Uploads.{
  Status, pending, confirmed, r2, UploadedBy, MediaAssetDocument, FileItem, PresignedUrl, Call,
  find_one, Services, to_domain, confirm_upload,
}
use interiors_api_client.Uploads.Records.{Uploaded}
use interiors_api_client.Common.{◌⊎◌}
use interiors_api_client.Common.Exception.{Exception, bad_request}
use interiors_api_client.Users.Roles.{can_activate}
use interiors_api_client.Uploads.Route.{
  GenerateUrl, SessionUser, HttpRequest, uploader, confirm, confirm_route,
}
use interiors_api_client.Uploads.Route.Owned.{IsRefused, IsAdmitted, confirm_route-cases}

abbrev doc : MediaAssetDocument
doc = record {
  public_url = text "https://x/a";
  file_key = text "catalog/images/kitchen/1-png";
  file_name = text "a.png";
  mime_type = text "image/png";
  file_size = 12;
  category = text "kitchen";
  provider = r2;
  admin_id = text "7";
  admin_name = some (text "Bo");
  name = none;
  created_at = 1;
  updated_at = 1;
  status = pending;
}

abbrev with_status : Status → Option MediaAssetDocument → Option MediaAssetDocument
with_status st none = none
with_status st (some d) = some (record d { status = st })

abbrev io : Services (Option MediaAssetDocument)
io = record {
  uuid = λ w. (ok (text "1"), w);
  presign = λ p k m n z w.
      (ok (record { upload_url = text "https://up"; public_url = text "https://x/a" }), w);
  create = λ d w. (ok d, some d);
  find_one = λ k w. (ok w, w);
  find_one_and_update = λ k st w. (ok (with_status st w), with_status st w);
}

abbrev start : Recorded Call (Option MediaAssetDocument)
start = record { calls = []; outside = some doc }

abbrev picture : FileItem
picture = record {
  file_name = text "a.png";
  mime_type = text "image/png";
  file_size = 12;
  category = text "kitchen";
}

abbrev urls : List PresignedUrl
urls = record { upload_url = text "https://up"; public_url = text "https://x/a" } ∷ []

abbrev admin : SessionUser
admin = record { user_id = text "7"; name = some (text "Bo"); role = text "ADMIN" }

-- A body is valid for both routes.
abbrev url_dto : Text → Option GenerateUrl
url_dto t = some (record { files = picture ∷ []; provider = t })

abbrev key_dto : Text → Option Text
key_dto t = some t

abbrev asking : HttpRequest Text
asking = record { user = some admin; body = text "r2" }

abbrev picture_key : HttpRequest Text
picture_key = record { user = some admin; body = doc.file_key }

confirm_route-cases_example :
    ((a : IsAdmitted key_dto picture_key) × (confirm_route io url_dto key_dto picture_key start
        ≡ confirm io a.value start))
    ⊎ ((e : Exception) × (confirm_route io url_dto key_dto picture_key start ≡ (err e, start))
        × (IsRefused picture_key.user e ⊎ ((e ≡ bad_request) × (key_dto picture_key.body ≡ none))))
confirm_route-cases_example = confirm_route-cases io url_dto key_dto picture_key start

confirmed_runs :
    (confirm_route io url_dto key_dto picture_key start).0
    ≡ ok
        (record { file_key = doc.file_key; public_url = doc.public_url; status = Status.confirmed })
unfolding confirm_route confirm can_activate confirm_upload to_domain text_eq
confirmed_runs = refl
