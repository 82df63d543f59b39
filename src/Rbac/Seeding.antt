-- ===== src/Rbac/Seeding.antt =====
-- `seed_rbac_defaults` of app/core/rbac.py, on the tables of permissions and of roles.
use mathlib.Core.Option
use fastapi_auth_api.Base.{
  String, not, Option, none, some, List, [], ◌∷◌, ◌++◌, map, keep, contains, str_eq, if◌then◌else◌,
}
use fastapi_auth_api.Models.{Permission, Role}
use fastapi_auth_api.Services.Table.{Table}

abbrev pub default_permissions : List (String × String)
default_permissions =
    ("users:read", "View any user's account")
    ∷ ("users:write", "Update any user's account")
    ∷ ("users:delete", "Deactivate any user's account")
    ∷ ("roles:manage", "Assign or revoke roles")
    ∷ []

abbrev pub default_roles : List (String × String)
default_roles =
    ("admin", "Full administrative access")
    ∷ ("moderator", "Can view and moderate user accounts")
    ∷ ("user", "Standard authenticated user")
    ∷ []

abbrev pub role_permissions : List (String × List String)
role_permissions =
    ("admin", "users:read" ∷ "users:write" ∷ "users:delete" ∷ "roles:manage" ∷ [])
    ∷ ("moderator", "users:read" ∷ "users:write" ∷ [])
    ∷ ("user", [])
    ∷ []

-- `dict.get(key)`
abbrev pub lookup : {V : Type 0} → String → List (String × V) → Option V
lookup k [] = none
lookup k ((j, v) ∷ rest) = if str_eq k j then some v else lookup k rest

-- `ROLE_PERMISSIONS.get(role_name, set())`
abbrev pub wanted_of : String → List String
wanted_of role_name = Option.get_or (lookup role_name role_permissions) []

abbrev pub names_of : List Permission → List String
names_of permissions = map (λ p. p.name) permissions

-- `wanted - current`; the order in which a set is gone through is that of its listing.
abbrev pub missing : List String → List Permission → List String
missing wanted current = keep (λ name. not (contains name (names_of current))) wanted

abbrev pub PermissionTable : Type 1
PermissionTable = Table Permission (λ p. p.id)

abbrev pub RoleTable : Type 1
RoleTable = Table Role (λ r. r.id)

module _ (pt : PermissionTable) where
  abbrev pub or_new_permission :
      String → String → Option Permission → pt.State → Permission × pt.State
  or_new_permission name description (some permission) s = (permission, s)
  or_new_permission name description none s =
      let permission : Permission = record {
        id = pt.next_id s;
        name = name;
        description = some description;
      } in
      (permission, pt.save permission s)

  unfoldable pub ensure_permission : String → String → pt.State → Permission × pt.State
  ensure_permission name description s =
      or_new_permission name description (pt.scalar (λ p. str_eq p.name name) s) s

  -- `permissions_by_name`, and the table after the loop.
  unfoldable pub ensure_permissions :
      List (String × String) → pt.State → List (String × Permission) × pt.State
  unfolding ensure_permission
  ensure_permissions [] s = ([], s)
  ensure_permissions ((name, description) ∷ rest) s =
      let (permission, s') = ensure_permission name description s in
      let (known, s'') = ensure_permissions rest s' in ((name, permission) ∷ known, s'')

-- `permissions_by_name[name]` for each name; `none` is a KeyError.
abbrev pub pick : List String → List (String × Permission) → Option (List Permission)
pick [] known = some []
pick (name ∷ names) known =
    Option.bind (lookup name known)
      λ permission. Option.map (λ rest. permission ∷ rest) (pick names known)

module _ (rt : RoleTable) where
  abbrev pub or_new_role : String → String → Option Role → rt.State → Role × rt.State
  or_new_role name description (some role) s = (role, s)
  or_new_role name description none s =
      let role : Role = record {
        id = rt.next_id s;
        name = name;
        description = some description;
        permissions = [];
      } in
      (role, rt.save role s)

  -- A role with nothing appended is not written.
  abbrev pub append_permissions : Role → List Permission → rt.State → rt.State
  append_permissions role [] s = s
  append_permissions role (permission ∷ rest) s =
      rt.save (record role { permissions = role.permissions ++ permission ∷ rest }) s

  unfoldable pub seed_role :
      List (String × Permission) → String → String → rt.State → Option rt.State
  unfolding Option.bind
  seed_role known name description s =
      let (role, s') = or_new_role name description (rt.scalar (λ r. str_eq r.name name) s) s in
      Option.map (λ appended. append_permissions role appended s')
        (pick (missing (wanted_of name) role.permissions) known)

  unfoldable pub seed_roles :
      List (String × Permission) → List (String × String) → rt.State → Option rt.State
  unfolding seed_role Option.bind
  seed_roles known [] s = some s
  seed_roles known ((name, description) ∷ rest) s =
      Option.bind (seed_role known name description s) (seed_roles known rest)

-- `none` is a KeyError, after which the session is not committed.
unfoldable pub seed_rbac_defaults :
    (pt : PermissionTable) (rt : RoleTable) → pt.State × rt.State → Option (pt.State × rt.State)
unfolding ensure_permissions seed_roles
seed_rbac_defaults pt rt (permissions, roles) =
    let (known, permissions') = ensure_permissions pt default_permissions permissions in
    Option.map (λ roles'. (permissions', roles')) (seed_roles rt known default_roles roles)
