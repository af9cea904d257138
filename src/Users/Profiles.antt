-- ===== src/Users/Profiles.antt =====
-- The users' collection behind `UserMongoRepository`, and what `UserService` and
-- `DeleteUserService` do with it (src/modules/user). The collection is a parameter.
use interiors_api_client.Common.{ℕ, Bool, Option, none, some, if◌then◌else◌, ltb, ◌==◌}
use interiors_api_client.Common.Text.{Text, trim, text}
use interiors_api_client.Common.Exception.{
  Exception, ErrorCode, domain, conflict, not_found, driver,
}
use interiors_api_client.Common.Exec.{
  Exec, Result, ok, err, pure, throw, lift, try_catch, ◌>>=◌, ◌>>◌,
}
use interiors_api_client.Common.Recorded.{Recorded, call}
use interiors_api_client.Users.Account.{User, NewUser, create}
use interiors_api_client.Users.Documents.{UserPersistence, UserDocument, to_domain, to_persistence}

-- The account that Firebase holds: the fields of `UserRecord` that are read.
pub record FirebaseUser : Type 0 where
  pub uid : Text
  pub email : Option Text
  pub email_verified : Bool
  pub phone_number : Option Text
  pub disabled : Bool

-- The calls to Firebase and to the collection.
pub data Call : Type 0 where
  verify_id_token get_user : Text → Call
  find_user_id find_username : Text → Call
  save find_one_and_update : UserPersistence → Call
  update_last_login_at : Text → ℕ → Call
  delete_one : Text → Call

-- Firebase's `Auth`, and the model of the collection.
pub record Services (W : Type 0) : Type 0 where
  pub verify_id_token : Text → Exec W Text
  pub get_user : Text → Exec W FirebaseUser
  pub find_user_id : Text → Exec W (Option UserDocument)
  pub find_username : Text → Exec W (Option UserDocument)
  pub save : UserPersistence → Exec W UserDocument
  pub find_one_and_update : UserPersistence → Exec W (Option UserDocument)
  pub update_last_login_at : Text → ℕ → Exec W (Unit {0})
  pub delete_one : Text → Exec W ℕ

-- `document ? UserMapper.toDomain(document) : null`
abbrev pub found : Option UserDocument → Result (Option User)
found none = ok none
found (some raw) = elim (to_domain raw) [ ok u ↦ ok (some u) | err e ↦ err e ]

-- `existingUser` is a user.
abbrev pub refuse_found : {S : Type 0} → Option User → ErrorCode → Exec S (Unit {0})
refuse_found none code = pure tt
refuse_found (some u) code = throw (domain code)

-- The catch block of `createProfile`.
abbrev pub rethrow : {S A : Type 0} → Exception → Exec S A
rethrow (driver code keys) =
    if code == 11000
    then throw (conflict (text "This username or verified contact is already in use."))
    else throw (driver code keys)
rethrow e = throw e

abbrev pub require_updated : {S : Type 0} → Option UserDocument → Exec S User
require_updated none = throw not_found
require_updated (some raw) = lift (to_domain raw)

module _ {W : Type 0} (io : Services W) where
  -- `UserMongoRepository.findByUserId`
  unfoldable pub find_by_user_id : Text → Exec (Recorded Call W) (Option User)
  find_by_user_id id = do raw ← call (Call.find_user_id id) (io.find_user_id id); lift (found raw)

  -- `UserMongoRepository.findByUsername`
  unfoldable pub find_by_username : Text → Exec (Recorded Call W) (Option User)
  find_by_username name = do
    raw ← call (Call.find_username name) (io.find_username name)
    lift (found raw)

  -- `UserMongoRepository.create`
  unfoldable pub insert : User → Exec (Recorded Call W) User
  insert u = do
    raw ← call (Call.save (to_persistence u)) (io.save (to_persistence u))
    lift (to_domain raw)

  -- `UserMongoRepository.update`
  unfoldable pub update : User → Exec (Recorded Call W) User
  update u = do
    let fields = to_persistence u
    raw ← call (Call.find_one_and_update fields) (io.find_one_and_update fields)
    require_updated raw

  -- `UserMongoRepository.updateLastLogin`, as `UserService.updateLastLogin` calls it
  unfoldable pub record_login : ℕ → User → Exec (Recorded Call W) (Unit {0})
  record_login now u = call (Call.update_last_login_at u.id now) (io.update_last_login_at u.id now)

  -- `UserMongoRepository.deleteByUserId`
  unfoldable pub delete_by_user_id : Text → Exec (Recorded Call W) Bool
  delete_by_user_id id = do n ← call (Call.delete_one id) (io.delete_one id); pure (ltb 0 n)

  -- `DeleteUserService.execute`
  unfoldable pub delete_user : Text → Exec (Recorded Call W) (Unit {0})
  unfolding delete_by_user_id
  delete_user id = do deleted ← delete_by_user_id id; if deleted then pure tt else throw not_found

  -- `UserService.createProfile`, at the time `now`
  unfoldable pub create_profile : ℕ → NewUser → Exec (Recorded Call W) User
  unfolding find_by_user_id find_by_username insert
  create_profile now input = do
    existing ← find_by_user_id input.firebase_uid
    refuse_found existing ErrorCode.account_already_exists
    let username = trim input.username
    holder ← find_by_username username
    refuse_found holder ErrorCode.username_taken
    user ← lift (create now (record input { username = username }))
    try_catch (insert user) rethrow
