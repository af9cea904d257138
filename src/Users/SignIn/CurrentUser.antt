-- ===== src/Users/SignIn/CurrentUser.antt =====
-- Who is taken for the current user.
use interiors_api_client.Common.{◌≡◌, refl, ap, ◌∙◌, false, Option, none, some, inl, inr, arith}
use interiors_api_client.Common.Text.{Text}
use interiors_api_client.Common.Exec.{ok, lift, Result-cases, continue-eq-ok}
use interiors_api_client.Common.Recorded.{Recorded, call}
use interiors_api_client.Users.Account.{Status, User, can_login}
use interiors_api_client.Users.Contacts.{IsValid}
use interiors_api_client.Users.Documents.{UserDocument, to_domain, to_domain-IsValid}
use interiors_api_client.Users.Profiles.{Call, FirebaseUser, Services, found, find_by_user_id}
use interiors_api_client.Users.SignIn.{get_firebase_user, require_found, get_current_user}
use interiors_api_client.Users.SignIn.Vouched.{get_firebase_user-enabled}

require_found-eq-ok :
    {S : Type 0} (o : Option User) (s : S) (u : User)
    → (require_found o s).0 ≡ ok u
    → (o ≡ some u) × (u.status ≡ Status.active)
unfolding can_login
require_found-eq-ok none s u h = cc
require_found-eq-ok (some v) s u h = ground arith

found-eq-some :
    (o : Option UserDocument) (u : User)
    → found o ≡ ok (some u)
    → (raw : UserDocument) × (o ≡ some raw) × (to_domain raw ≡ ok u)
found-eq-some none u h = cc
found-eq-some (some raw) u h = elim (Result-cases (to_domain raw)) [
  | inl (v, e) ↦ (raw, refl, ground arith)
  | inr (x, e) ↦ cc
]

module _ {W : Type 0} (io : Services W) where
  find_by_user_id-eq-some :
      (id : Text) (s : Recorded Call W) (u : User)
      → (find_by_user_id io id s).0 ≡ ok (some u)
      → (raw : UserDocument) × ((io.find_user_id id s.outside).0 ≡ ok (some raw))
        × (to_domain raw ≡ ok u)
  unfolding find_by_user_id
  find_by_user_id-eq-some id s u h =
      let (o, read, decoded) =
        continue-eq-ok (io.find_user_id id s.outside).0 (λ raw. lift (found raw))
          (call (Call.find_user_id id) (io.find_user_id id) s).1 (some u) h in
      let (raw, there, mapped) = found-eq-some o u decoded in (raw, read ∙ ap ok there, mapped)

  -- The user that a token is answered with is one that Firebase gave an account for which is not
  -- disabled, is read from the document of that account's identifier, is active, and satisfies the
  -- entity's rules.
  pub get_current_user-IsActive :
      (id_token : Text) (s : Recorded Call W) (u : User)
      → (get_current_user io id_token s).0 ≡ ok u
      → (f : FirebaseUser) × (raw : UserDocument) × ((get_firebase_user io id_token s).0 ≡ ok f)
        × (f.disabled ≡ false)
        × ((io.find_user_id f.uid (get_firebase_user io id_token s).1.outside).0 ≡ ok (some raw))
        × (to_domain raw ≡ ok u)
        × (u.status ≡ Status.active)
        × IsValid u
  unfolding get_current_user
  get_current_user-IsActive id_token s u h =
      let s' = (get_firebase_user io id_token s).1 in
      let (f, got, h') = continue-eq-ok (get_firebase_user io id_token s).0 _ s' u h in
      let s'' = (find_by_user_id io f.uid s').1 in
      let (o, answer, h'') = continue-eq-ok (find_by_user_id io f.uid s').0 _ s'' u h' in
      let (same, active) = require_found-eq-ok o s'' u h'' in
      let (raw, read, mapped) = find_by_user_id-eq-some f.uid s' u (answer ∙ ap ok same) in
      (
        f,
        raw,
        got,
        get_firebase_user-enabled io id_token s f got,
        read,
        mapped,
        active,
        to_domain-IsValid raw u mapped,
      )
