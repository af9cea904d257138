-- ===== src/Users/Contacts.antt =====
-- What holds of every user: the identifier, the name and the verified contacts.
use interiors_api_client.Common.{
  ℕ, ◌≤◌, ◌≡◌, refl, ap, ◌∙◌, Bool, true, false, ◌||◌, Option, ◌∷◌, [], is_empty, length, arith,
}
use interiors_api_client.Common.Text.{Text, trim}
use interiors_api_client.Common.Text.Laws.{trim_idem}
use interiors_api_client.Common.Exec.{Result, ok, err}
use interiors_api_client.Users.Account.{
  User, NewUser, construct, draft, create_id, create_username, is_missing, validate_contacts,
  create, from_persistence, with_verified_email, with_verified_phone, update_last_login, suspend,
}

-- A contact that is verified is there, and one of the two is verified.
pub record IsReachable (u : User) : Type 0 where
  pub by_email : u.email_verified ≡ true → is_missing u.email ≡ false
  pub by_phone : u.phone_verified ≡ true → is_missing u.phone ≡ false
  pub by_either : u.email_verified || u.phone_verified ≡ true

pub record IsValid (u : User) : Type 0 where
  pub identified : is_empty (trim u.id) ≡ false
  pub trimmed : trim u.username ≡ u.username
  pub long_enough : 3 ≤ length u.username
  pub short_enough : length u.username ≤ 30
  pub reachable : IsReachable u

-- The users that the methods of the entity make.
pub data Made : User → Type 0 where
  created : {u : User} (now : ℕ) (input : NewUser) → create now input ≡ ok u → Made u
  loaded : {u : User} (input : User) → from_persistence input ≡ ok u → Made u
  verified_email :
      {u v : User} (address : Text) → Made u → with_verified_email address u ≡ ok v → Made v
  verified_phone :
      {u v : User} (number : Text) → Made u → with_verified_phone number u ≡ ok v → Made v
  logged_in : {u : User} (now : ℕ) → Made u → Made (update_last_login now u)
  suspended : {u : User} → Made u → Made (suspend u)

pub construct-eq-ok :
    (c : Result (Unit {0})) (i n : Result Text) (input u : User)
    → construct c i n input ≡ ok u
    → (id : Text) × (name : Text) × (c ≡ ok tt)
      × (i ≡ ok id)
      × (n ≡ ok name)
      × (u ≡ record input { id = id; username = name })
construct-eq-ok (ok t) (ok id) (ok name) input u h = (id, name, refl, refl, refl, cc)
construct-eq-ok (ok t) (ok id) (err e) input u h = cc
construct-eq-ok (ok t) (err e) n input u h = cc
construct-eq-ok (err e) i n input u h = cc

create_id-eq-ok :
    (value id : Text) → create_id value ≡ ok id → (id ≡ value) × (is_empty (trim value) ≡ false)
unfolding create_id
create_id-eq-ok value id h = ground arith

create_username-eq-ok :
    (value name : Text)
    → create_username value ≡ ok name
    → (name ≡ trim value) × (3 ≤ length (trim value)) × (length (trim value) ≤ 30)
unfolding create_username
create_username-eq-ok value name h = ground arith

validate_contacts-eq-ok :
    (email : Option Text) (ev : Bool) (phone : Option Text) (pv : Bool)
    → validate_contacts email ev phone pv ≡ ok tt
    → (ev ≡ true → is_missing email ≡ false)
      × (pv ≡ true → is_missing phone ≡ false)
      × (ev || pv ≡ true)
unfolding validate_contacts
validate_contacts-eq-ok email true phone true h = ground arith
validate_contacts-eq-ok email true phone false h = ground arith
validate_contacts-eq-ok email false phone true h = ground arith
validate_contacts-eq-ok email false phone false h = ground arith

-- A user of accepted parts.
IsValid-of_parts :
    (value raw : Text) (id name : Text) (u : User)
    → validate_contacts u.email u.email_verified u.phone u.phone_verified ≡ ok tt
    → create_id value ≡ ok id
    → create_username raw ≡ ok name
    → u.id ≡ id
    → u.username ≡ name
    → IsValid u
IsValid-of_parts value raw id name u contacts identified named e f =
    let (same, given) = create_id-eq-ok value id identified in
    let (cut, long, short) = create_username-eq-ok raw name named in
    let (email, phone, either) =
      validate_contacts-eq-ok u.email u.email_verified u.phone u.phone_verified contacts in
    record {
      identified = rw (e, same) given;
      trimmed = rw (f, cut) (trim_idem raw);
      long_enough = rw (f, cut) long;
      short_enough = rw (f, cut) short;
      reachable = record { by_email = email; by_phone = phone; by_either = either };
    }

pub from_persistence-IsValid : (input u : User) → from_persistence input ≡ ok u → IsValid u
unfolding from_persistence
from_persistence-IsValid input u h =
    let (id, name, contacts, identified, named, made) =
      construct-eq-ok
        (validate_contacts input.email input.email_verified input.phone input.phone_verified)
        (create_id input.id) (create_username input.username) input u h in
    rw made (
      IsValid-of_parts input.id input.username id name (record input { id = id; username = name })
        contacts identified named refl refl)

pub create-IsValid : (now : ℕ) (input : NewUser) (u : User) → create now input ≡ ok u → IsValid u
unfolding create
create-IsValid now input u h = from_persistence-IsValid (draft now input) u h

-- What `User.create` takes over from its input.
pub create-parts :
    (now : ℕ) (input : NewUser) (u : User)
    → create now input ≡ ok u
    → (u.id ≡ input.firebase_uid)
      × (u.email ≡ (draft now input).email)
      × (u.email_verified ≡ input.email_verified)
      × (u.phone ≡ (draft now input).phone)
      × (u.phone_verified ≡ input.phone_verified)
unfolding create from_persistence
create-parts now input u h =
    let base = draft now input in
    let (id, name, contacts, identified, named, made) =
      construct-eq-ok
        (validate_contacts base.email base.email_verified base.phone base.phone_verified)
        (create_id base.id) (create_username base.username) base u h in
    let (same, given) = create_id-eq-ok base.id id identified in
    (
      ap (λ (v : User). v.id) made ∙ same,
      ap (λ (v : User). v.email) made,
      ap (λ (v : User). v.email_verified) made,
      ap (λ (v : User). v.phone) made,
      ap (λ (v : User). v.phone_verified) made,
    )

with_verified_email-IsValid :
    (address : Text) (u v : User) → IsValid u → with_verified_email address u ≡ ok v → IsValid v
unfolding with_verified_email
with_verified_email-IsValid address u v w h = ground arith

with_verified_phone-IsValid :
    (number : Text) (u v : User) → IsValid u → with_verified_phone number u ≡ ok v → IsValid v
unfolding with_verified_phone
with_verified_phone-IsValid number u v w h = ground arith

-- Every user that the entity's methods make, in whatever order they are called, has an identifier
-- that is more than white space, a trimmed name of 3 to 30 code units, a verified email address or
-- phone number, and the contact itself wherever one is marked as verified.
pub Made-IsValid : {u : User} → Made u → IsValid u
unfolding update_last_login suspend
Made-IsValid (created {u} now input e) = create-IsValid now input u e
Made-IsValid (loaded {u} input e) = from_persistence-IsValid input u e
Made-IsValid (verified_email {u} {v} address m e) =
    with_verified_email-IsValid address u v (Made-IsValid m) e
Made-IsValid (verified_phone {u} {v} number m e) =
    with_verified_phone-IsValid number u v (Made-IsValid m) e
Made-IsValid (logged_in {u} now m) = let w = Made-IsValid m in ground arith
Made-IsValid (suspended {u} m) = let w = Made-IsValid m in ground arith

create_id_given : (id : Text) → is_empty (trim id) ≡ false → create_id id ≡ ok id
unfolding create_id trim
create_id_given [] h = cc
create_id_given (c ∷ s) h = rw h

create_username_same :
    (name : Text)
    → trim name ≡ name
    → 3 ≤ length name
    → length name ≤ 30
    → create_username name ≡ ok name
unfolding create_username
create_username_same name e long short = rw e (ground arith)

validate_contacts_reachable :
    (u : User)
    → IsReachable u
    → validate_contacts u.email u.email_verified u.phone u.phone_verified ≡ ok tt
unfolding validate_contacts
validate_contacts_reachable u r = ground arith

-- A valid user passes the checks as it is.
pub from_persistence_same : (u : User) → IsValid u → from_persistence u ≡ ok u
unfolding from_persistence
from_persistence_same u v =
    rw
      (
        validate_contacts_reachable u v.reachable,
        create_id_given u.id v.identified,
        create_username_same u.username v.trimmed v.long_enough v.short_enough,
      )
      refl
