-- ===== src/Users/Tests.antt =====
-- One account of Firebase, registered and read again.
use interiors_api_client.Common.{◌≡◌, refl, true, false, Option, none, some, []}
use interiors_api_client.Common.Text.{text, trim, lower, to_lower_case}
use interiors_api_client.Common.Exec.{ok}
use interiors_api_client.Common.Recorded.{Recorded, OnlyNew}
use interiors_api_client.Users.Account.{Status, User, NewUser, can_login, create, suspend}
use interiors_api_client.Users.Contacts.{IsValid, Made, Made-IsValid}
use interiors_api_client.Users.Documents.{UserPersistence, UserDocument, to_domain, to_persistence}
use interiors_api_client.Users.Profiles.{Call, FirebaseUser, Services}
use interiors_api_client.Users.SignIn.{
  RegisterUser, extract_bearer_token, get_firebase_user, register_user, get_current_user,
}
use interiors_api_client.Users.SignIn.Vouched.{Allowed}
use interiors_api_client.Users.SignIn.Registration.{register_user-Allowed}
use interiors_api_client.Users.SignIn.CurrentUser.{get_current_user-IsActive}
use interiors_api_client.Users.Roles.{Request}
use interiors_api_client.Common.{◌∷◌}

abbrev new_ann : NewUser
new_ann = record {
  firebase_uid = text "u1";
  username = text " ann ";
  email = some (text "Ann@X.io");
  email_verified = true;
  phone = none;
  phone_verified = false;
  whatsapp_updates = false;
}

abbrev ann : User
ann = record {
  id = text "u1";
  username = text "ann";
  email = some (text "ann@x.io");
  email_verified = true;
  phone = none;
  phone_verified = false;
  whatsapp_updates = false;
  status = Status.active;
  created_at = 5;
  last_login_at = none;
}

ann_created : create 5 new_ann ≡ ok ann
unfolding create trim to_lower_case
ann_created = refl

ann_trimmed : trim ann.id ≡ ann.id
unfolding trim
ann_trimmed = refl

abbrev fields_of_ann : UserPersistence
fields_of_ann = record {
  user_id = text "u1";
  username = text "ann";
  email = some (text "ann@x.io");
  email_verified = true;
  phone = none;
  phone_verified = false;
  whatsapp_updates = false;
  status = Status.active;
  last_login_at = none;
}

ann_suspended : Made (suspend ann)
ann_suspended = Made.suspended (Made.created 5 new_ann ann_created)

Made-IsValid_example : IsValid (suspend ann)
Made-IsValid_example = Made-IsValid ann_suspended

abc_read : extract_bearer_token (some (text " bearer  abc")) ≡ ok (text "abc")
unfolding extract_bearer_token trim lower
abc_read = refl

abbrev account : FirebaseUser
account = record {
  uid = text "u1";
  email = some (text "Ann@X.io");
  email_verified = true;
  phone_number = none;
  disabled = false;
}

-- Firebase knows one account, and the collection one document, which is found by its identifier.
abbrev io : Services (Option UserDocument)
io = record {
  verify_id_token = λ t w. (ok (text "u1"), w);
  get_user = λ t w. (ok account, w);
  find_user_id = λ t w. (ok w, w);
  find_username = λ t w. (ok none, w);
  save = λ p w.
      (ok (record { fields = p; created_at = 7 }), some (record { fields = p; created_at = 7 }));
  find_one_and_update = λ p w. (ok w, w);
  update_last_login_at = λ t now w. (ok tt, w);
  delete_one = λ t w. (ok 1, none);
}

abbrev body : RegisterUser
body = record { username = text " ann "; email = none; phone = none; whatsapp_updates = false }

abbrev nobody : Recorded Call (Option UserDocument)
nobody = record { calls = []; outside = none }

register_user_saves :
    (register_user io 5 (text "t") body nobody).0 ≡ ok (record ann { created_at = 7 })
unfolding register_user to_domain to_persistence create trim to_lower_case
register_user_saves = refl

register_user-Allowed_example :
    OnlyNew
      (Allowed (get_firebase_user io (text "t") nobody).0)
      []
      (register_user io 5 (text "t") body nobody).1.calls
register_user-Allowed_example = register_user-Allowed io 5 (text "t") body nobody

abbrev stored : Recorded Call (Option UserDocument)
stored = record { calls = []; outside = some (record { fields = fields_of_ann; created_at = 5 }) }

ann_signed_in : (get_current_user io (text "t") stored).0 ≡ ok ann
unfolding get_current_user to_domain trim can_login
ann_signed_in = refl

get_current_user-IsActive_example :
    (f : FirebaseUser) × (raw : UserDocument) × ((get_firebase_user io (text "t") stored).0 ≡ ok f)
    × (f.disabled ≡ false)
    × ((io.find_user_id f.uid (get_firebase_user io (text "t") stored).1.outside).0 ≡ ok (some raw))
    × (to_domain raw ≡ ok ann)
    × (ann.status ≡ Status.active)
    × IsValid ann
get_current_user-IsActive_example = get_current_user-IsActive io (text "t") stored ann ann_signed_in

abbrev for_admins : Request
for_admins = record {
  is_public = none;
  required_roles = some (text "admin" ∷ text "editor" ∷ []);
  user_role = some (text "editor");
}
