-- ===== src/Users/Documents.antt =====
-- The document of a user (src/modules/user/infrastructure/persistence/mongo): the mapper
-- `UserMapper`, and the setters that `user.schema.ts` declares for the fields.
use interiors_api_client.Common.{
  ℕ, ◌≡◌, refl, ap, sym, ◌∙◌, arith, Bool, Bool-cases, inl, inr, Option, none, some, is_empty,
}
use interiors_api_client.Common.Text.{Text, trim, to_lower_case}
use interiors_api_client.Common.Text.Laws.{trim_idem, to_lower_case_idem, trim-to_lower_case}
use interiors_api_client.Common.Exec.{Result, ok}
use interiors_api_client.Users.Account.{
  Status, User, NewUser, or_undefined, map_text, create, from_persistence,
}
use interiors_api_client.Users.Contacts.{
  create-parts, create-IsValid, from_persistence-IsValid, IsValid, from_persistence_same,
}

-- `UserPersistence`
pub record UserPersistence : Type 0 where
  pub user_id : Text
  pub username : Text
  pub email : Option Text
  pub email_verified : Bool
  pub phone : Option Text
  pub phone_verified : Bool
  pub whatsapp_updates : Bool
  pub status : Status
  pub last_login_at : Option ℕ

-- `UserHydratedDocument`: the time of creation is the database's.
pub record UserDocument : Type 0 where
  pub fields : UserPersistence
  pub created_at : ℕ

-- `UserMapper.toPersistence`
unfoldable pub to_persistence : User → UserPersistence
to_persistence u = record {
  user_id = u.id;
  username = u.username;
  email = u.email;
  email_verified = u.email_verified;
  phone = u.phone;
  phone_verified = u.phone_verified;
  whatsapp_updates = u.whatsapp_updates;
  status = u.status;
  last_login_at = u.last_login_at;
}

-- The fields that `UserMapper.toDomain` reads.
abbrev pub as_user : UserDocument → User
as_user raw = record {
  id = raw.fields.user_id;
  username = raw.fields.username;
  email = raw.fields.email;
  email_verified = raw.fields.email_verified;
  phone = raw.fields.phone;
  phone_verified = raw.fields.phone_verified;
  whatsapp_updates = raw.fields.whatsapp_updates;
  status = raw.fields.status;
  created_at = raw.created_at;
  last_login_at = raw.fields.last_login_at;
}

-- `UserMapper.toDomain`
unfoldable pub to_domain : UserDocument → Result User
unfolding from_persistence
to_domain raw = from_persistence (as_user raw)

-- `trim: true` and `lowercase: true` of the schema.
unfoldable pub apply_setters : UserPersistence → UserPersistence
apply_setters p = record p {
  user_id = trim p.user_id;
  username = trim p.username;
  email = map_text (λ s. to_lower_case (trim s)) p.email;
  phone = map_text trim p.phone;
}

settled_email : (s : Text) → to_lower_case (trim (to_lower_case (trim s))) ≡ to_lower_case (trim s)
settled_email s = simp (trim-to_lower_case, trim_idem, to_lower_case_idem)

-- A contact that the setters leave as it is.
normalized_email :
    (o : Option Text)
    → map_text
        (λ s. to_lower_case (trim s))
        (or_undefined (map_text (λ s. to_lower_case (trim s)) o))
      ≡ or_undefined (map_text (λ s. to_lower_case (trim s)) o)
normalized_email none = refl
normalized_email (some s) = elim (Bool-cases (is_empty (to_lower_case (trim s)))) [
  | inl e ↦ rw e refl
  | inr e ↦ rw e (ap some (settled_email s))
]

normalized_phone :
    (o : Option Text)
    → map_text trim (or_undefined (map_text trim o)) ≡ or_undefined (map_text trim o)
normalized_phone none = refl
normalized_phone (some s) = elim (Bool-cases (is_empty (trim s))) [
  | inl e ↦ rw e refl
  | inr e ↦ rw e (ap some (trim_idem s))
]

-- A document whose fields the setters leave as they are is read as the user.
to_domain_settled :
    (u : User) (created : ℕ)
    → IsValid u
    → apply_setters (to_persistence u) ≡ to_persistence u
    → to_domain (record { fields = apply_setters (to_persistence u); created_at = created })
      ≡ ok (record u { created_at = created })
unfolding to_domain to_persistence
to_domain_settled u created v e =
    rw e (from_persistence_same (record u { created_at = created }) (ground arith))

-- A user that was just created is read back from the document that its fields are saved to, setters
-- included, with the database's time of creation, if its identifier has no outer white space.
pub to_domain-to_persistence :
    (now created : ℕ) (input : NewUser) (u : User)
    → create now input ≡ ok u
    → trim u.id ≡ u.id
    → to_domain (record { fields = apply_setters (to_persistence u); created_at = created })
      ≡ ok (record u { created_at = created })
unfolding apply_setters to_persistence
to_domain-to_persistence now created input u h t =
    let v = create-IsValid now input u h in
    let (id, e, ev, p, pv) = create-parts now input u h in
    let email : map_text (λ s. to_lower_case (trim s)) u.email ≡ u.email =
      ap (map_text (λ s. to_lower_case (trim s))) e ∙ normalized_email input.email ∙ sym e in
    let phone : map_text trim u.phone ≡ u.phone =
      ap (map_text trim) p ∙ normalized_phone input.phone ∙ sym p in
    to_domain_settled u created v (cc v.trimmed)

pub to_domain-IsValid : (raw : UserDocument) (u : User) → to_domain raw ≡ ok u → IsValid u
unfolding to_domain
to_domain-IsValid raw u h = from_persistence-IsValid (as_user raw) u h
