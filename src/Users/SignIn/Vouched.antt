-- ===== src/Users/SignIn/Vouched.antt =====
-- An account that vouches for what a registration writes.
use interiors_api_client.Common.{
  ◌≡◌, sym, ◌∙◌, true, false, ◌||◌, Option, some, inl, inr, ℕ, Option-cases, arith,
}
use interiors_api_client.Common.Text.{Text, trim, to_lower_case}
use interiors_api_client.Common.Exec.{Result, ok, err}
use interiors_api_client.Common.Recorded.{Recorded}
use interiors_api_client.Users.Account.{User, create, or_undefined, map_text, is_missing}
use interiors_api_client.Users.Contacts.{create-IsValid, create-parts}
use interiors_api_client.Users.Documents.{UserPersistence, to_persistence}
use interiors_api_client.Users.Profiles.{Call, FirebaseUser, Services}
use interiors_api_client.Users.SignIn.{
  RegisterUser, email_vouched, phone_vouched, profile_of, get_firebase_user,
}

-- The account stands behind the identifier and behind each contact that is marked as verified.
pub record IsVouchedBy (f : FirebaseUser) (p : UserPersistence) : Type 0 where
  pub same_id : p.user_id ≡ f.uid
  pub by_email :
      p.email_verified ≡ true
      → (f.email_verified ≡ true)
        × (e : Text) × (f.email ≡ some e)
        × (p.email ≡ some (to_lower_case (trim e)))
  pub by_phone :
      p.phone_verified ≡ true → (n : Text) × (f.phone_number ≡ some n) × (p.phone ≡ some (trim n))
  pub by_either : p.email_verified || p.phone_verified ≡ true

-- If the call saves a document, its fields satisfy `P`.
abbrev pub Saves : (UserPersistence → Type 0) → Call → Type 0
Saves P (Call.verify_id_token t) = Unit
Saves P (Call.get_user t) = Unit
Saves P (Call.find_user_id t) = Unit
Saves P (Call.find_username t) = Unit
Saves P (Call.save p) = P p
Saves P (Call.find_one_and_update p) = ⊥
Saves P (Call.update_last_login_at t now) = ⊥
Saves P (Call.delete_one t) = ⊥

-- Nothing is saved without an account; with one, it is not disabled and vouches for what is saved.
abbrev pub Allowed : Result FirebaseUser → Call → Type 0
Allowed (ok f) = Saves (λ p. (f.disabled ≡ false) × IsVouchedBy f p)
Allowed (err e) = Saves (λ p. ⊥)

-- The contact that is verified is the account's own.
vouched_email :
    (f : FirebaseUser) (input : RegisterUser) (o : Option Text)
    → o ≡ or_undefined (map_text (λ s. to_lower_case (trim s)) (profile_of f input).email)
    → email_vouched f ≡ true
    → is_missing o ≡ false
    → (f.email_verified ≡ true)
      × (e : Text) × (f.email ≡ some e)
      × (o ≡ some (to_lower_case (trim e)))
unfolding profile_of
vouched_email f input o h v m = elim (Option-cases f.email) [
  | inl e ↦ absurd (ground arith)
  | inr (s, e) ↦ (ground arith, s, e, ground arith)
]

vouched_phone :
    (f : FirebaseUser) (input : RegisterUser) (o : Option Text)
    → o ≡ or_undefined (map_text trim (profile_of f input).phone)
    → phone_vouched f ≡ true
    → is_missing o ≡ false
    → (n : Text) × (f.phone_number ≡ some n) × (o ≡ some (trim n))
unfolding profile_of
vouched_phone f input o h v m = elim (Option-cases f.phone_number) [
  | inl e ↦ absurd (ground arith)
  | inr (s, e) ↦ (s, e, ground arith)
]

pub profile-IsVouchedBy :
    (now : ℕ) (f : FirebaseUser) (input : RegisterUser) (u : User)
    → create now (record (profile_of f input) { username = trim input.username }) ≡ ok u
    → IsVouchedBy f (to_persistence u)
unfolding to_persistence profile_of
profile-IsVouchedBy now f input u h =
    let profile = record (profile_of f input) { username = trim input.username } in
    let valid = create-IsValid now profile u h in
    let (id, email, ev, phone, pv) = create-parts now profile u h in
    record {
      same_id = id;
      by_email = λ e. vouched_email f input u.email email (sym ev ∙ e) (valid.reachable.by_email e);
      by_phone = λ e. vouched_phone f input u.phone phone (sym pv ∙ e) (valid.reachable.by_phone e);
      by_either = valid.reachable.by_either;
    }

module _ {W : Type 0} (io : Services W) where
  pub get_firebase_user-enabled :
      (id_token : Text) (s : Recorded Call W) (f : FirebaseUser)
      → (get_firebase_user io id_token s).0 ≡ ok f
      → f.disabled ≡ false
  unfolding get_firebase_user
  get_firebase_user-enabled id_token s f h = ground arith
