-- ===== src/Rbac.antt =====
-- app/core/rbac.py: what the roles of a user allow.
pub mod Checks
pub mod Seeding
pub mod Seeded
use fastapi_auth_api.Base.{
  ℕ, String, Bool, not, Option, none, some, List, [], ◌∷◌, ◌++◌, map, any, all, contains,
}
use fastapi_auth_api.Http.{Action, HttpException, http, pure, gets, raise_if, ok, ◌>>=◌, ◌>>◌}
use fastapi_auth_api.Models.{Permission, Role, User}
use fastapi_auth_api.Services.{Services, World}
use fastapi_auth_api.Dependencies.{get_current_user}

abbrev pub with_role : Option Role → List Role → List Role
with_role none rest = rest
with_role (some role) rest = role ∷ rest

abbrev pub permission_names : List Role → List String
permission_names [] = []
permission_names (role ∷ rest) = map (λ p. p.name) role.permissions ++ permission_names rest

abbrev pub missing_role : HttpException
missing_role = http 403 "You do not have the required role for this action"

abbrev pub missing_permission : HttpException
missing_permission = http 403 "You do not have the required permission for this action"

module _ (sv : Services) where
  -- `user.roles`: the rows of `roles` that `user_roles` joins to the user.
  abbrev pub rows_of : List ℕ → sv.roles.State → List Role
  rows_of [] s = []
  rows_of (i ∷ is) s = with_role (sv.roles.get i s) (rows_of is s)

  abbrev pub roles_of : User → World sv → List Role
  roles_of user w = rows_of user.roles w.roles

  -- `not user_role_names & self.allowed_roles`
  abbrev pub shares : List String → List Role → Bool
  shares allowed_roles = any (λ role. contains role.name allowed_roles)

  -- `self.required_permissions <= user_permissions`
  abbrev pub covers : List String → List Role → Bool
  covers required roles = all (λ name. contains name (permission_names roles)) required

  module _ (now : ℕ) (token : sv.jwt.Token) where
    unfoldable pub require_roles : List String → Action (World sv) User
    unfolding get_current_user
    require_roles allowed_roles = do
      current_user ← get_current_user sv now token
      allowed ← gets (λ w. shares allowed_roles (roles_of current_user w))
      raise_if (not allowed) missing_role
      pure current_user

    unfoldable pub require_permissions : List String → Action (World sv) User
    unfolding get_current_user
    require_permissions required = do
      current_user ← get_current_user sv now token
      allowed ← gets (λ w. covers required (roles_of current_user w))
      raise_if (not allowed) missing_permission
      pure current_user
