-- ===== src/Admin.antt =====
-- app/api/admin.py: what an administrator does to accounts and their roles.
pub mod Effects
pub mod Listings
pub mod Feed
use Prim.Native.String.{◌++◌ as ◌&◌}
use fastapi_auth_api.Base.{
  ℕ, String, Bool, true, false, not, Option, none, some, List, [], ◌∷◌, ◌++◌, keep, any, ◌==◌,
  str_eq,
}
use fastapi_auth_api.Http.{
  Action, HttpException, http, pure, gets, modify, or_raise, raise_if, ok, ◌>>=◌, ◌>>◌,
}
use fastapi_auth_api.Models.{Role, User}
use fastapi_auth_api.Connections.{Frame, notification}
use fastapi_auth_api.Services.{Services, World}
use fastapi_auth_api.Dependencies.{save_user}
use fastapi_auth_api.Rbac.{require_permissions}
use fastapi_auth_api.Realtime.{publish_to_user}

abbrev pub no_user : HttpException
no_user = http 404 "User not found"

abbrev pub no_role : HttpException
no_role = http 404 "Role not found"

-- `if value is not None: user.field = value`
abbrev pub given : Option Bool → Bool → Bool
given none old = old
given (some new) old = new

abbrev pub grant_notice : Role → Frame
grant_notice role = notification ("You have been granted the '" & (role.name & "' role"))

-- The role of an id stays, unless its name is the one that is revoked.
abbrev pub is_kept : String → Option Role → Bool
is_kept role_name none = false
is_kept role_name (some role) = not (str_eq role.name role_name)

module _ (sv : Services) where
  unfoldable pub update_user_status : ℕ → Option Bool → Option Bool → Action (World sv) User
  update_user_status user_id is_active is_verified = do
    found ← gets (λ w. sv.users.get user_id w.users)
    user ← or_raise found no_user
    let updated : User = record user {
      is_active = given is_active user.is_active;
      is_verified = given is_verified user.is_verified;
    }
    modify (save_user sv updated)
    pure updated

  unfoldable pub deactivate_user : ℕ → Action (World sv) (Unit {0})
  deactivate_user user_id = do
    found ← gets (λ w. sv.users.get user_id w.users)
    user ← or_raise found no_user
    modify (save_user sv (record user { is_active = false }))

  unfoldable pub list_roles : Action (World sv) (List Role)
  list_roles = gets (λ w. sv.roles.scalars (λ _. true) w.roles)

  module _ (works : ℕ → Bool) (reachable : Bool) where
    -- The role is not among those of the user.
    abbrev pub append_role : User → Role → Bool → Action (World sv) User
    append_role user role true w = (ok user, w)
    append_role user role false w =
        let granted : User = record user { roles = user.roles ++ role.id ∷ [] } in
        ((modify (save_user sv granted)
              >> publish_to_user sv works reachable user.id (grant_notice role))
            >>= λ _. pure granted)
          w

    unfoldable pub assign_role : ℕ → String → Action (World sv) User
    assign_role user_id role_name = do
      found ← gets (λ w. sv.users.get user_id w.users)
      user ← or_raise found no_user
      named ← gets (λ w. sv.roles.scalar (λ r. str_eq r.name role_name) w.roles)
      role ← or_raise named no_role
      append_role user role (any (λ i. i == role.id) user.roles)

  unfoldable pub revoke_role : ℕ → String → Action (World sv) User
  revoke_role user_id role_name = do
    found ← gets (λ w. sv.users.get user_id w.users)
    user ← or_raise found no_user
    kept ← gets (λ w. keep (λ i. is_kept role_name (sv.roles.get i w.roles)) user.roles)
    modify (save_user sv (record user { roles = kept }))
    pure (record user { roles = kept })

  -- The routes: each asks for a permission first.
  module _ (now : ℕ) (token : sv.jwt.Token) where
    unfoldable pub update_user_status_route : ℕ → Option Bool → Option Bool → Action (World sv) User
    unfolding require_permissions update_user_status
    update_user_status_route user_id is_active is_verified =
        require_permissions sv now token ("users:write" ∷ []) >>= λ _.
        update_user_status user_id is_active is_verified

    unfoldable pub deactivate_user_route : ℕ → Action (World sv) (Unit {0})
    unfolding require_permissions deactivate_user
    deactivate_user_route user_id =
        require_permissions sv now token ("users:delete" ∷ []) >>= λ _. deactivate_user user_id

    unfoldable pub list_roles_route : Action (World sv) (List Role)
    unfolding require_permissions list_roles
    list_roles_route = require_permissions sv now token ("roles:manage" ∷ []) >>= λ _. list_roles

    unfoldable pub assign_role_route : (ℕ → Bool) → Bool → ℕ → String → Action (World sv) User
    unfolding require_permissions assign_role
    assign_role_route works reachable user_id role_name =
        require_permissions sv now token ("roles:manage" ∷ []) >>= λ _.
        assign_role works reachable user_id role_name

    unfoldable pub revoke_role_route : ℕ → String → Action (World sv) User
    unfolding require_permissions revoke_role
    revoke_role_route user_id role_name =
        require_permissions sv now token ("roles:manage" ∷ []) >>= λ _.
        revoke_role user_id role_name
