-- ===== src/Users/SignIn/Registration.antt =====
-- What a registration may write, rule by rule over its calls.
use interiors_api_client.Common.{
  ◌≡◌, [], ◌∷◌, false, not, ◌&&◌, Option, none, some, inl, inr, ℕ, Bool-cases, ◌==◌,
}
use interiors_api_client.Common.Text.{Text, text}
use interiors_api_client.Common.Exception.{
  Exception, ErrorCode, domain, conflict, driver, application, infrastructure, rate_limit,
  bad_request, unauthorized, forbidden, not_found, service_unavailable, internal_server_error,
  error, no_entry,
}
use interiors_api_client.Common.Exec.{Result, ok, err, Exec}
use interiors_api_client.Common.Recorded.{
  Recorded, OnlyNew, Adds, Adds-if, Adds-call, Adds-pure, Adds-throw, Adds-lift, Adds-bind,
  Adds-try_catch, continue-OnlyNew, Adds-lift_bind,
}
use interiors_api_client.Users.Account.{User}
use interiors_api_client.Users.Documents.{to_persistence, to_domain}
use interiors_api_client.Users.Profiles.{
  Call, FirebaseUser, Services, found, refuse_found, rethrow, find_by_user_id, find_by_username,
  insert, create_profile,
}
use interiors_api_client.Users.SignIn.{
  RegisterUser, email_vouched, phone_vouched, profile_of, get_firebase_user, register_user,
}
use interiors_api_client.Users.SignIn.Vouched.{
  Allowed, profile-IsVouchedBy, get_firebase_user-enabled,
}

Allowed-verify : (r : Result FirebaseUser) (t : Text) → Allowed r (Call.verify_id_token t)
Allowed-verify (ok f) t = tt
Allowed-verify (err e) t = tt

Allowed-get_user : (r : Result FirebaseUser) (t : Text) → Allowed r (Call.get_user t)
Allowed-get_user (ok f) t = tt
Allowed-get_user (err e) t = tt

rethrow-Adds :
    {W A : Type 0} (P : Call → Type 0) (e : Exception) → Adds {W = W} {A = A} P (rethrow e)
rethrow-Adds P (driver code keys) = elim (Bool-cases (code == 11000)) [
  | inl e ↦
      rw e (Adds-throw (conflict (text "This username or verified contact is already in use.")))
  | inr e ↦ rw e (Adds-throw (driver code keys))
]
rethrow-Adds P (domain code) = Adds-throw (domain code)
rethrow-Adds P (application code) = Adds-throw (application code)
rethrow-Adds P (infrastructure code n) = Adds-throw (infrastructure code n)
rethrow-Adds P (rate_limit code) = Adds-throw (rate_limit code)
rethrow-Adds P (conflict message) = Adds-throw (conflict message)
rethrow-Adds P bad_request = Adds-throw bad_request
rethrow-Adds P unauthorized = Adds-throw unauthorized
rethrow-Adds P forbidden = Adds-throw forbidden
rethrow-Adds P not_found = Adds-throw not_found
rethrow-Adds P service_unavailable = Adds-throw service_unavailable
rethrow-Adds P internal_server_error = Adds-throw internal_server_error
rethrow-Adds P error = Adds-throw error
rethrow-Adds P no_entry = Adds-throw no_entry

refuse_found-Adds :
    {W : Type 0} (P : Call → Type 0) (o : Option User) (code : ErrorCode)
    → Adds {W = W} P (refuse_found o code)
refuse_found-Adds P none code = Adds-pure tt
refuse_found-Adds P (some u) code = Adds-throw (domain code)

Allowed-answer :
    {W A : Type 0} (r : Result FirebaseUser) (f : FirebaseUser) {m : Exec (Recorded Call W) A}
    → r ≡ ok f
    → Adds (Allowed (ok f)) m
    → Adds (Allowed r) m
Allowed-answer r f e h = rw e h

module _ {W : Type 0} (io : Services W) where
  get_firebase_user-Adds :
      (r : Result FirebaseUser) (id_token : Text) → Adds (Allowed r) (get_firebase_user io id_token)
  unfolding get_firebase_user
  get_firebase_user-Adds r [] = Adds-throw unauthorized
  get_firebase_user-Adds r (c ∷ t) =
      Adds-bind
        (Adds-try_catch
          (Adds-bind
            (Adds-call (Call.verify_id_token (c ∷ t)) (io.verify_id_token (c ∷ t))
              (Allowed-verify r (c ∷ t)))
            (λ uid. Adds-call (Call.get_user uid) (io.get_user uid) (Allowed-get_user r uid)))
          (λ e. Adds-throw unauthorized))
        (λ user. Adds-if user.disabled (Adds-throw unauthorized) (Adds-pure user))

  find_by_user_id-Adds :
      (P : Call → Type 0) (id : Text) → P (Call.find_user_id id) → Adds P (find_by_user_id io id)
  unfolding find_by_user_id
  find_by_user_id-Adds P id p =
      Adds-bind (Adds-call (Call.find_user_id id) (io.find_user_id id) p)
        (λ raw. Adds-lift (found raw))

  find_by_username-Adds :
      (P : Call → Type 0) (name : Text)
      → P (Call.find_username name)
      → Adds P (find_by_username io name)
  unfolding find_by_username
  find_by_username-Adds P name p =
      Adds-bind (Adds-call (Call.find_username name) (io.find_username name) p)
        (λ raw. Adds-lift (found raw))

  insert-Adds :
      (P : Call → Type 0) (u : User) → P (Call.save (to_persistence u)) → Adds P (insert io u)
  unfolding insert
  insert-Adds P u p =
      Adds-bind (Adds-call (Call.save (to_persistence u)) (io.save (to_persistence u)) p)
        (λ raw. Adds-lift (to_domain raw))

  create_profile-Adds :
      (now : ℕ) (f : FirebaseUser) (input : RegisterUser)
      → f.disabled ≡ false
      → Adds (Allowed (ok f)) (create_profile io now (profile_of f input))
  unfolding create_profile profile_of
  create_profile-Adds now f input enabled = Adds-bind (find_by_user_id-Adds _ _ tt) (λ existing.
      Adds-bind (refuse_found-Adds _ existing _) (λ _.
        Adds-bind (find_by_username-Adds _ _ tt) (λ holder.
          Adds-bind (refuse_found-Adds _ holder _) (λ _. Adds-lift_bind (λ u h.
            Adds-try_catch (insert-Adds _ u (enabled, profile-IsVouchedBy now f input u h))
              (λ e. rethrow-Adds _ e))))))

  -- Whatever Firebase and the collection answer, a registration saves nothing unless Firebase gave an
  -- account for the token that is not disabled; what is saved then has this account's identifier,
  -- a verified email address or phone number, and as such only the one that Firebase holds for the
  -- account, without the blanks around it and the address in lower case; the address only if
  -- Firebase has verified it. Nothing is updated or deleted.
  pub register_user-Allowed :
      (now : ℕ) (id_token : Text) (input : RegisterUser) (s : Recorded Call W)
      → OnlyNew
          (Allowed (get_firebase_user io id_token s).0)
          s.calls
          (register_user io now id_token input s).1.calls
  unfolding register_user
  register_user-Allowed now id_token input s =
      let r = (get_firebase_user io id_token s).0 in
      continue-OnlyNew r _ (get_firebase_user io id_token s).1 s.calls
        ((get_firebase_user-Adds r id_token).at s)
        (λ user e.
          Adds-if (not (email_vouched user) && not (phone_vouched user)) (Adds-throw unauthorized) (
            Allowed-answer r user e (
              create_profile-Adds now user input (get_firebase_user-enabled io id_token s user e))))
