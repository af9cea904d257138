-- ===== src/Users/SignIn.antt =====
-- Registration and sign-in with a Firebase token (src/modules/auth): `AuthService`, and what
-- `AuthController` reads from the header and answers.
pub mod Bearer
pub mod CurrentUser
pub mod Registration
pub mod Vouched
use interiors_api_client.Common.{
  ℕ, Bool, true, false, not, ◌&&◌, ◌||◌, Option, none, some, if◌then◌else◌, is_empty, [], ◌∷◌, ◌==◌,
}
use interiors_api_client.Common.Text.{Text, text, trim, trim_start, is_space, lower}
use interiors_api_client.Common.Exception.{Exception, unauthorized, forbidden, not_found}
use interiors_api_client.Common.Exec.{
  Exec, Result, ok, err, pure, throw, lift, try_catch, ◌>>=◌, ◌>>◌,
}
use interiors_api_client.Common.Recorded.{Recorded, call}
use interiors_api_client.Users.Account.{Status, User, NewUser, is_missing, can_login}
use interiors_api_client.Users.Profiles.{
  Call, FirebaseUser, Services, find_by_user_id, create_profile,
}

-- `RegisterUserDto`
pub record RegisterUser : Type 0 where
  pub username : Text
  pub email : Option Text
  pub phone : Option Text
  pub whatsapp_updates : Bool

-- `a ?? b`
abbrev pub or_else : Option Text → Option Text → Option Text
or_else none b = b
or_else (some a) b = some a

-- `emailVerified` and `phoneVerified` of `registerUser`
abbrev pub email_vouched : FirebaseUser → Bool
email_vouched f = f.email_verified && not (is_missing f.email)

abbrev pub phone_vouched : FirebaseUser → Bool
phone_vouched f = not (is_missing f.phone_number)

-- What `registerUser` gives to `createProfile`.
unfoldable pub profile_of : FirebaseUser → RegisterUser → NewUser
profile_of f input = record {
  firebase_uid = f.uid;
  username = input.username;
  email = if email_vouched f then f.email else input.email;
  email_verified = email_vouched f;
  phone = or_else f.phone_number input.phone;
  phone_verified = phone_vouched f;
  whatsapp_updates = input.whatsapp_updates;
}

abbrev pub require_found : {S : Type 0} → Option User → Exec S User
require_found none = throw not_found
require_found (some u) = if can_login u then pure u else throw forbidden

module _ {W : Type 0} (io : Services W) where
  -- `getFirebaseUser`
  unfoldable pub get_firebase_user : Text → Exec (Recorded Call W) FirebaseUser
  get_firebase_user id_token = if is_empty id_token then throw unauthorized else do
    user ←
        try_catch
          (do
            uid ← call (Call.verify_id_token id_token) (io.verify_id_token id_token)
            call (Call.get_user uid) (io.get_user uid))
          (λ e. throw unauthorized)
    if user.disabled then throw unauthorized else pure user

  -- `registerUser`, at the time `now`
  unfoldable pub register_user : ℕ → Text → RegisterUser → Exec (Recorded Call W) User
  unfolding get_firebase_user profile_of create_profile
  register_user now id_token input = do
    user ← get_firebase_user id_token
    if not (email_vouched user) && not (phone_vouched user)
        then throw unauthorized
        else create_profile io now (profile_of user input)

  -- `getCurrentUser`
  unfoldable pub get_current_user : Text → Exec (Recorded Call W) User
  unfolding get_firebase_user find_by_user_id
  get_current_user id_token = do
    user ← get_firebase_user id_token
    existing ← find_by_user_id io user.uid
    require_found existing

-- The rest of the text after the word `Bearer`, in whichever case its letters are written.
unfoldable pub after_word : Text → Text → Option Text
after_word [] s = some s
after_word (c ∷ w) [] = none
after_word (c ∷ w) (d ∷ s) = if c == lower d then after_word w s else none

abbrev pub all_plain : Text → Bool
all_plain [] = true
all_plain (c ∷ s) = not (is_space c) && all_plain s

-- `\s+(\S+)$`
abbrev pub spaced_token : Text → Option Text
spaced_token [] = none
spaced_token (c ∷ s) =
    let token = trim_start s in
    if is_space c && (not (is_empty token) && all_plain token) then some token else none

-- `/^Bearer\s+(\S+)$/i.exec(header)?.[1]`
unfoldable pub match_bearer : Text → Option Text
unfolding after_word
match_bearer header = elim (after_word (text "bearer") header) [
  | none ↦ none
  | some rest ↦ spaced_token rest
]

abbrev pub require_token : Option Text → Result Text
require_token none = err unauthorized
require_token (some token) = if is_empty token then err unauthorized else ok token

-- `authorization?.trim() ?? ""`
abbrev pub header_text : Option Text → Text
header_text none = []
header_text (some s) = trim s

-- `extractBearerToken`
unfoldable pub extract_bearer_token : Option Text → Result Text
unfolding match_bearer
extract_bearer_token authorization = require_token (match_bearer (header_text authorization))

-- The answer of both routes (`toProfileResponse`).
pub record ProfileResponse : Type 0 where
  pub user_id : Text
  pub username : Text
  pub email : Option Text
  pub email_verified : Bool
  pub phone : Option Text
  pub phone_verified : Bool
  pub whatsapp_updates : Bool
  pub status : Status
  pub created_at : ℕ

unfoldable pub to_profile_response : User → ProfileResponse
to_profile_response u = record {
  user_id = u.id;
  username = u.username;
  email = u.email;
  email_verified = u.email_verified;
  phone = u.phone;
  phone_verified = u.phone_verified;
  whatsapp_updates = u.whatsapp_updates;
  status = u.status;
  created_at = u.created_at;
}

module _ {W : Type 0} (io : Services W) where
  -- `POST /auth/register`
  unfoldable pub register : ℕ → Option Text → RegisterUser → Exec (Recorded Call W) ProfileResponse
  unfolding extract_bearer_token register_user to_profile_response
  register now authorization body = do
    id_token ← lift (extract_bearer_token authorization)
    user ← register_user io now id_token body
    pure (to_profile_response user)

  -- `GET /auth/me`
  unfoldable pub me : Option Text → Exec (Recorded Call W) ProfileResponse
  unfolding extract_bearer_token get_current_user to_profile_response
  me authorization = do
    id_token ← lift (extract_bearer_token authorization)
    user ← get_current_user io id_token
    pure (to_profile_response user)
