-- ===== src/Uploads/Tests/Storages.antt =====
-- Storages that sign every URL.
use interiors_api_client.Common.{◌≡◌, ◌↔◌, refl, Option, none, some, [], ◌∷◌}
use interiors_api_client.Common.Text.{Text, text}
use interiors_api_client.Common.Exec.{ok}
use interiors_api_client.Common.Recorded.{OnlyNew}
use interiors_api_client.Uploads.{
  MediaAssetDocument, PresignedUrl, FileItem, UploadedBy, generate_upload_url,
}
use interiors_api_client.Uploads.Storage.{
  S3Package, R2Adapter, GcpPackage, GcpAdapter, Url, construct_gcp, unescape_newlines, presign_gcp,
  last_part, stored, link,
}
use interiors_api_client.Uploads.Storage.Domain.{signed, presign_gcp-answers_iff}
use interiors_api_client.Uploads.Storage.Linked.{IsLinked, generate_upload_url-IsLinked}
use interiors_api_client.Uploads.Tests.{io, start}

abbrev signer : S3Package (Option MediaAssetDocument)
signer = record {
  get_signed_url = λ p n w. (ok (text "https://up"), w);
  delete_object = λ b k w. (ok tt, w);
}

abbrev bucket : R2Adapter
bucket = record {
  endpoint = text "https://a.r2.cloudflarestorage.com";
  access_key_id = text "i";
  secret_access_key = text "s";
  bucket = text "b";
  public_domain = text "https://cdn.site.org";
}

abbrev google : GcpPackage (Option MediaAssetDocument)
google = record { get_signed_url = λ b k t n w. (ok (text "https://up"), w); now = λ w. 0 }

-- Every text is a URL with a host of its own.
abbrev parse_url : Text → Option Url
parse_url t = some (record { protocol = text "https:"; hostname = t })

abbrev config : Text → Option Text
config name = some (text "cdn")

abbrev made : GcpAdapter
made = record {
  project_id = text "cdn";
  client_email = text "cdn";
  private_key = text "cdn";
  bucket_name = text "cdn";
  public_domain = text "cdn";
}

made_lem : construct_gcp config ≡ ok made
unfolding construct_gcp
made_lem = refl

newline : unescape_newlines (text "a\\nb") ≡ 97 ∷ 10 ∷ 98 ∷ []
unfolding unescape_newlines
newline = refl

extension : last_part (text "a.b.png") ≡ text "png"
unfolding last_part
extension = refl

abbrev given : PresignedUrl
given = record { upload_url = text "https://up"; public_url = link (text "cdn") (text "k") }

presign_gcp-answers_iff_example :
    ((presign_gcp parse_url config google made (text "k") (text "t") 60 none).0 ≡ ok given) ↔ (
      (url : Text) × (signed parse_url config google made (text "k") (text "t") 60 none ≡ ok url)
      × ((u : Url) × (parse_url (text "cdn") ≡ some u) × (u.protocol ≡ text "https:"))
      × (given ≡ record { upload_url = url; public_url = link (text "cdn") (text "k") }))
presign_gcp-answers_iff_example =
    presign_gcp-answers_iff parse_url config google made (text "cdn") (text "k") (text "t") 60 none
      given made_lem refl (λ e. cc)

abbrev photo : FileItem
photo = record {
  file_name = text "a.png";
  mime_type = text "image/png";
  file_size = 12;
  category = text "kitchen";
}

abbrev bo : UploadedBy
bo = record { admin_id = text "7"; admin_name = some (text "Bo") }

generate_upload_url-IsLinked_example :
    OnlyNew
      (IsLinked signer bucket parse_url config google made io)
      start.calls
      (generate_upload_url
        (stored signer bucket parse_url config google made io)
        1
        (photo ∷ [])
        (text "gcs")
        bo
        start).1.calls
generate_upload_url-IsLinked_example =
    generate_upload_url-IsLinked signer bucket parse_url config google made io 1 (photo ∷ [])
      (text "gcs") bo start
