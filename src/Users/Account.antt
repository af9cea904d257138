-- ===== src/Users/Account.antt =====
-- The user entity (src/modules/user/domain/entities/user.entity.ts) and its value objects
-- (src/modules/user/value-objects). A date is a number of milliseconds.
use interiors_api_client.Common.{
  ℕ, Bool, true, false, not, ◌&&◌, ◌||◌, Option, none, some, if◌then◌else◌, is_empty, length, ltb,
}
use interiors_api_client.Common.Text.{Text, trim, to_lower_case}
use interiors_api_client.Common.Exception.{error}
use interiors_api_client.Common.Exec.{Result, ok, err}

-- `UserStatus`
pub data Status : Type 0 where
  pending active suspended locked : Status

-- `UserProps`
pub record User : Type 0 where
  pub id : Text
  pub username : Text
  pub email : Option Text
  pub email_verified : Bool
  pub phone : Option Text
  pub phone_verified : Bool
  pub whatsapp_updates : Bool
  pub status : Status
  pub created_at : ℕ
  pub last_login_at : Option ℕ

-- What `User.create` is given.
pub record NewUser : Type 0 where
  pub firebase_uid : Text
  pub username : Text
  pub email : Option Text
  pub email_verified : Bool
  pub phone : Option Text
  pub phone_verified : Bool
  pub whatsapp_updates : Bool

-- `UserId.create`
unfoldable pub create_id : Text → Result Text
create_id value = if is_empty value || is_empty (trim value) then err error else ok value

-- `Username.create`
unfoldable pub create_username : Text → Result Text
create_username value =
    let normalized = trim value in
    if ltb (length normalized) 3 || ltb 30 (length normalized) then err error else ok normalized

-- `!value`
abbrev pub is_missing : Option Text → Bool
is_missing none = true
is_missing (some s) = is_empty s

-- `value || undefined`
abbrev pub or_undefined : Option Text → Option Text
or_undefined none = none
or_undefined (some s) = if is_empty s then none else some s

abbrev pub map_text : (Text → Text) → Option Text → Option Text
map_text f none = none
map_text f (some s) = some (f s)

-- `User.validateContacts`
unfoldable pub validate_contacts :
    (email : Option Text) (email_verified : Bool) (phone : Option Text) (phone_verified : Bool)
    → Result (Unit {0})
validate_contacts email email_verified phone phone_verified =
    if email_verified && is_missing email
    then err error
    else if phone_verified && is_missing phone
    then err error
    else if not email_verified && not phone_verified
    then err error
    else ok tt

-- `new User`, once the contacts, the identifier and the name have been accepted in this order.
abbrev pub construct : Result (Unit {0}) → Result Text → Result Text → User → Result User
construct (ok t) (ok id) (ok username) u = ok (record u { id = id; username = username })
construct (ok t) (ok id) (err e) u = err e
construct (ok t) (err e) username u = err e
construct (err e) id username u = err e

-- `User.fromPersistence`
unfoldable pub from_persistence : User → Result User
unfolding validate_contacts create_id create_username
from_persistence input =
    construct (validate_contacts input.email input.email_verified input.phone input.phone_verified)
      (create_id input.id) (create_username input.username) input

-- The new user before the checks, with normalized contacts.
abbrev pub draft : ℕ → NewUser → User
draft now input = record {
  id = input.firebase_uid;
  username = input.username;
  email = or_undefined (map_text (λ s. to_lower_case (trim s)) input.email);
  email_verified = input.email_verified;
  phone = or_undefined (map_text trim input.phone);
  phone_verified = input.phone_verified;
  whatsapp_updates = input.whatsapp_updates;
  status = Status.active;
  created_at = now;
  last_login_at = none;
}

-- `User.create`, at the time `now`: the same checks.
unfoldable pub create : ℕ → NewUser → Result User
unfolding from_persistence
create now input = from_persistence (draft now input)

-- `withVerifiedEmail`
unfoldable pub with_verified_email : Text → User → Result User
with_verified_email address u =
    let normalized = to_lower_case (trim address) in
    if is_empty normalized
    then err error
    else ok (record u { email = some normalized; email_verified = true })

-- `withVerifiedPhone`
unfoldable pub with_verified_phone : Text → User → Result User
with_verified_phone number u =
    let normalized = trim number in
    if is_empty normalized
    then err error
    else ok (record u { phone = some normalized; phone_verified = true })

unfoldable pub update_last_login : ℕ → User → User
update_last_login now u = record u { last_login_at = some now }

unfoldable pub suspend : User → User
suspend u = record u { status = Status.suspended }

abbrev pub is_active : Status → Bool
is_active Status.active = true
is_active _ = false

-- `canLogin`
unfoldable pub can_login : User → Bool
can_login u = is_active u.status
