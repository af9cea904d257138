-- ===== src/Uploads/Route/Owned.antt =====
-- Who may upload, and in whose name.
use interiors_api_client.Common.{
  ℕ, ◌≡◌, ◌≢◌, ◌⊎◌, inl, inr, refl, sym, ◌∙◌, true, false, Option, none, some, List, [], ◌∷◌, ◌++◌,
  Bool-cases, Option-cases,
}
use interiors_api_client.Common.Text.{Text, text, text_eq}
use interiors_api_client.Common.Text.Laws.{text_eq_iff}
use interiors_api_client.Common.Exception.{Exception, bad_request, unauthorized, forbidden}
use interiors_api_client.Common.Exec.{ok, err}
use interiors_api_client.Common.Recorded.{Recorded}
use interiors_api_client.Users.Roles.{can_activate}
use interiors_api_client.Uploads.{
  Status, Provider, MediaAsset, FileItem, PresignedUrl, Call, presign, create, Services,
  to_persistence,
}
use interiors_api_client.Uploads.Route.{
  GenerateUrl, SessionUser, HttpRequest, admin_only, confirm, confirm_route,
}

-- Why a session is not let through.
pub data IsRefused : Option SessionUser → Exception → Type 0 where
  no_user : IsRefused none unauthorized
  other_role : {u : SessionUser} → u.role ≢ text "ADMIN" → IsRefused (some u) forbidden

-- A request that both the guard and the pipe of the body let through.
pub record IsAdmitted {B D : Type 0} (dto : B → Option D) (q : HttpRequest B) : Type 0 where
  pub user : SessionUser
  pub value : D
  pub has_user : q.user ≡ some user
  pub is_admin : user.role ≡ text "ADMIN"
  pub is_valid : dto q.body ≡ some value

false-ne-true : false ≢ true
false-ne-true e = cc

admin_only-cases :
    (o : Option SessionUser)
    → ((u : SessionUser) × (o ≡ some u) × (u.role ≡ text "ADMIN") × (admin_only o ≡ ok true))
      ⊎ ((e : Exception) × IsRefused o e × (admin_only o ≡ err e))
unfolding can_activate
admin_only-cases none = inr (unauthorized, no_user, refl)
admin_only-cases (some u) = elim (Bool-cases (text_eq (text "ADMIN") u.role)) [
  | inl e ↦ inl (u, refl, sym ((text_eq_iff (text "ADMIN") u.role).0 e), rw e refl)
  | inr n ↦ inr (
    forbidden,
    other_role (λ r. false-ne-true (sym n ∙ (text_eq_iff (text "ADMIN") u.role).1 (sym r))),
    rw n refl,
  )
]

-- What the guard and the pipe make of a request.
admission-cases :
    {B D : Type 0}
    → (dto : B → Option D) (q : HttpRequest B)
    → ((a : IsAdmitted dto q) × (admin_only q.user ≡ ok true))
      ⊎ ((e : Exception) × IsRefused q.user e × (admin_only q.user ≡ err e))
      ⊎ ((admin_only q.user ≡ ok true) × (dto q.body ≡ none))
admission-cases dto q = elim (admin_only-cases q.user) [
  | inl (u, has, admin, passed) ↦ elim (Option-cases (dto q.body)) [
    | inl e ↦ inr (inr (passed, e))
    | inr (v, e) ↦
        inl (record { user = u; value = v; has_user = has; is_admin = admin; is_valid = e }, passed)
  ]
  | inr refused ↦ inr (inl refused)
]

-- The asset of a file, under a key and with the public address of its URL: pending, in the name of the
-- user of the session, both as it is made and as it is stored.
pub record IsDeposit (now : ℕ) (provider : Provider) (user : SessionUser) (file : FileItem)
    (key : Text) (url : PresignedUrl) (a : MediaAsset) : Type 0 where
  pub is_pending : a.status ≡ Status.pending
  pub by_user : a.uploaded_by.admin_id ≡ user.user_id
  pub by_name : a.uploaded_by.admin_name ≡ user.name
  pub under_key : a.file_key ≡ key
  pub at_url : a.public_url ≡ url.public_url
  pub on_provider : a.provider ≡ provider
  pub named : a.file_name ≡ file.file_name
  pub typed : a.mime_type ≡ file.mime_type
  pub sized : a.file_size ≡ file.file_size
  pub sorted : a.category ≡ file.category
  pub made_at : a.created_at ≡ now
  pub stored_pending : (to_persistence a).status ≡ Status.pending
  pub stored_by_user : (to_persistence a).admin_id ≡ user.user_id
  pub stored_by_name : (to_persistence a).admin_name ≡ user.name
  pub stored_under_key : (to_persistence a).file_key ≡ key

-- Each file with its URL: the calls of all, the newest first. The URL is asked for 60 seconds, and
-- then an asset is stored under the same key.
pub data Deposited (now : ℕ) (provider : Provider) (user : SessionUser)
    : List FileItem → List PresignedUrl → List Call → Type 0 where
  none_yet : Deposited now provider user [] [] []
  and_then :
      {files : List FileItem} {urls : List PresignedUrl} {calls : List Call} (file : FileItem)
      (url : PresignedUrl) (key : Text) (a : MediaAsset)
      → IsDeposit now provider user file key url a
      → Deposited now provider user files urls calls
      → Deposited now provider user
          (file ∷ files)
          (url ∷ urls)
          (calls ++ (create a ∷ presign provider key file.mime_type 60 file.file_size ∷ []))

module _ {W : Type 0} (io : Services W) {B : Type 0} (url_dto : B → Option GenerateUrl)
    (key_dto : B → Option Text) where
  -- A confirmation runs for an administrator of the session with a valid body, as the controller
  -- does it for the key of the body. Every other request changes nothing, nor is anything called:
  -- without a user it is unauthorized, with another role forbidden, and with an invalid body a bad
  -- request.
  pub confirm_route-cases :
      (q : HttpRequest B) (s : Recorded Call W)
      → ((a : IsAdmitted key_dto q) × (confirm_route io url_dto key_dto q s ≡ confirm io a.value s))
        ⊎ ((e : Exception) × (confirm_route io url_dto key_dto q s ≡ (err e, s))
            × (IsRefused q.user e ⊎ ((e ≡ bad_request) × (key_dto q.body ≡ none))))
  unfolding confirm_route
  confirm_route-cases q s = elim (admission-cases key_dto q) [
    | inl (a, passed) ↦ inl (a, rw (passed, a.is_valid) refl)
    | inr (inl (e, refused, stopped)) ↦ inr (e, rw stopped refl, inl refused)
    | inr (inr (passed, invalid)) ↦
        inr (bad_request, rw (passed, invalid) refl, inr (refl, invalid))
  ]
