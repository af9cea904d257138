-- ===== src/Users/Roles/Admits.antt =====
-- Whom the guard lets through.
use interiors_api_client.Common.{
  ◌≡◌, ◌↔◌, ◌⊎◌, refl, sym, Bool, true, false, Option, none, some, List, [], ◌∷◌, if◌then◌else◌,
  any, inl, inr, Bool-cases, arith,
}
use interiors_api_client.Common.Text.{Text, text_eq}
use interiors_api_client.Common.Text.Laws.{text_eq_iff}
use interiors_api_client.Common.Exception.{forbidden}
use interiors_api_client.Common.Exec.{Result, ok, err}
use interiors_api_client.Users.Roles.{Request, is_set, roles_of, check_user, can_activate}
use mathlib.Core.List.{Memᴰ}

-- The session has a user, and its role is one of those that are asked for, if any are.
abbrev pub HasRole : List Text → Option Text → Type 0
HasRole roles none = ⊥
HasRole roles (some role) = (roles ≡ []) ⊎ Memᴰ role roles

any-Memᴰ :
    (role : Text) (roles : List Text) → any (λ k. text_eq k role) roles ≡ true → Memᴰ role roles
any-Memᴰ role [] h = cc
any-Memᴰ role (r ∷ roles) h = elim (Bool-cases (text_eq r role)) [
  | inl e ↦ Memᴰ.head (sym ((text_eq_iff r role).0 e))
  | inr e ↦ Memᴰ.tail (any-Memᴰ role roles (rw e at h))
]

Memᴰ-any :
    (role : Text) (roles : List Text) → Memᴰ role roles → any (λ k. text_eq k role) roles ≡ true
Memᴰ-any role [] m = elim m [ ]
Memᴰ-any role (r ∷ roles) (Memᴰ.head e) = rw ((text_eq_iff r role).1 (sym e)) refl
Memᴰ-any role (r ∷ roles) (Memᴰ.tail m) = ground (arith, Memᴰ-any role roles m)

ok_if-true : (b : Bool) → (if b then ok true else err forbidden) ≡ ok true → b ≡ true
ok_if-true true h = refl
ok_if-true false h = cc

check_user-HasRole :
    (roles : List Text) (o : Option Text) → check_user roles o ≡ ok true → HasRole roles o
check_user-HasRole roles none h = cc
check_user-HasRole [] (some role) h = inl refl
check_user-HasRole (r ∷ roles) (some role) h =
    inr (any-Memᴰ role (r ∷ roles) (ok_if-true (any (λ k. text_eq k role) (r ∷ roles)) h))

HasRole-check_user :
    (roles : List Text) (o : Option Text) → HasRole roles o → check_user roles o ≡ ok true
HasRole-check_user roles none h = elim h [ ]
HasRole-check_user [] (some role) h = refl
HasRole-check_user (r ∷ roles) (some role) (inl e) = cc
HasRole-check_user (r ∷ roles) (some role) (inr m) = rw (Memᴰ-any role (r ∷ roles) m) refl

passes :
    (b : Bool) (r : Result Bool) → (if b then ok true else r) ≡ ok true → (b ≡ true) ⊎ (r ≡ ok true)
passes true r h = inl refl
passes false r h = inr h

passes_by :
    (b : Bool) (r : Result Bool) → (b ≡ true) ⊎ (r ≡ ok true) → (if b then ok true else r) ≡ ok true
passes_by true r h = refl
passes_by false r (inl e) = cc
passes_by false r (inr e) = e

-- A call is let through exactly if its route is public, or the session has a user whose role is
-- among the required ones, of which there may be none at all.
pub can_activate-admits_iff :
    (req : Request)
    → (can_activate req ≡ ok true)
      ↔ ((is_set req.is_public ≡ true) ⊎ HasRole (roles_of req.required_roles) req.user_role)
unfolding can_activate
can_activate-admits_iff req =
    let checked = check_user (roles_of req.required_roles) req.user_role in
    (
      λ h. elim (passes (is_set req.is_public) checked h) [
        | inl e ↦ inl e
        | inr e ↦ inr (check_user-HasRole (roles_of req.required_roles) req.user_role e)
      ],
      λ h. passes_by (is_set req.is_public) checked (elim h [
        | inl e ↦ inl e
        | inr e ↦ inr (HasRole-check_user (roles_of req.required_roles) req.user_role e)
      ]),
    )
