-- ===== src/Users/Roles.antt =====
-- Who may call a route (src/common/guards/roles.guard.ts): `RolesGuard`. The metadata of the route
-- are what the framework's reflector answers.
pub mod Admits
use interiors_api_client.Common.{
  Bool, true, false, Option, none, some, List, [], ◌∷◌, if◌then◌else◌, any,
}
use interiors_api_client.Common.Text.{Text, text_eq}
use interiors_api_client.Common.Exception.{unauthorized, forbidden}
use interiors_api_client.Common.Exec.{Result, ok, err}

-- The answers for `IS_PUBLIC_KEY` and `ROLES_KEY`, and the role of `req.session?.user`.
pub record Request : Type 0 where
  pub is_public : Option Bool
  pub required_roles : Option (List Text)
  pub user_role : Option Text

abbrev pub is_set : Option Bool → Bool
is_set none = false
is_set (some b) = b

-- `!requiredRoles || requiredRoles.length === 0` gives an empty list.
abbrev pub roles_of : Option (List Text) → List Text
roles_of none = []
roles_of (some roles) = roles

abbrev pub check_user : List Text → Option Text → Result Bool
check_user roles none = err unauthorized
check_user [] (some role) = ok true
check_user (r ∷ roles) (some role) =
    if any (λ k. text_eq k role) (r ∷ roles) then ok true else err forbidden

-- `canActivate`
unfoldable pub can_activate : Request → Result Bool
can_activate req =
    if is_set req.is_public then ok true else check_user (roles_of req.required_roles) req.user_role
