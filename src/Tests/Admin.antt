-- ===== src/Tests/Admin.antt =====
-- Roles, what they allow, and the administrator's calls.
use fastapi_auth_api.Base.{ℕ, Bool, ◌≡◌, ◌↔◌, refl, true, false, none, some, [], ◌∷◌, All}
use fastapi_auth_api.Http.{server_error, ok, err}
use fastapi_auth_api.Models.{Role, Permission, User}
use fastapi_auth_api.Services.{World}
use fastapi_auth_api.Accounts.{IsConsistent, update-IsConsistent}
use fastapi_auth_api.Dependencies.{get_current_user}
use fastapi_auth_api.Rbac.{roles_of, require_permissions}
use fastapi_auth_api.Rbac.Checks.{Grants, require_permissions_iff}
use fastapi_auth_api.Realtime.{publish_to_user}
use fastapi_auth_api.Connections.{send_local, send_sockets, send_all}
use fastapi_auth_api.Admin.{update_user_status, assign_role, revoke_role}
use fastapi_auth_api.Admin.Effects.{MayAssign, assign_role_stores, assign_role_broken_socket}
use fastapi_auth_api.Memory.{memory}
use fastapi_auth_api.Tests.Fixtures.{jane, with_jane, with_jane-IsConsistent, noon, access_payload}

abbrev reads : Permission
reads = record { id = 1; name = "users:read"; description = none }

abbrev moderator : Role
moderator = record { id = 5; name = "moderator"; description = none; permissions = reads ∷ [] }

abbrev with_roles : World memory
with_roles = record with_jane { roles = memory.roles.save moderator with_jane.roles }

-- Jane has a socket here.
abbrev online : World memory
online = record with_roles { connections = (1, 9 ∷ []) ∷ [] }

abbrev working : ℕ → Bool
working _ = true

abbrev broken : ℕ → Bool
broken _ = false

abbrev pub moderating : User
moderating = record jane { roles = 5 ∷ [] }

abbrev pub moderated : World memory
moderated = record with_roles { users = memory.users.save moderating with_roles.users }

require_permissions_iff_example :
    (require_permissions memory noon access_payload ("users:read" ∷ []) moderated
      ≡ (ok moderating, moderated))
    ↔ ((get_current_user memory noon access_payload moderated ≡ (ok moderating, moderated))
        × All (Grants (roles_of memory moderating moderated)) ("users:read" ∷ []))
require_permissions_iff_example =
    require_permissions_iff memory noon access_payload moderated moderating ("users:read" ∷ [])

moderator_reads :
    require_permissions memory noon access_payload ("users:read" ∷ []) moderated
    ≡ (ok moderating, moderated)
unfolding require_permissions
moderator_reads = refl

abbrev idle : User
idle = record jane { is_active = false }

abbrev idle_world : World memory
idle_world = record with_jane { users = memory.users.save idle with_jane.users }

jane_idles : update_user_status memory 1 (some false) none with_jane ≡ (ok idle, idle_world)
unfolding update_user_status
jane_idles = refl

may_assign : MayAssign memory working true 1 "moderator" online jane moderator
may_assign = record { stored = refl; named = refl; new = refl }

assign_role_stores_example :
    IsConsistent memory (assign_role memory working true 1 "moderator" online).1.users
assign_role_stores_example =
    (assign_role_stores memory working true 1 "moderator" online jane moderator 1
      with_jane-IsConsistent may_assign).0

may_assign_broken : MayAssign memory broken true 1 "moderator" online jane moderator
may_assign_broken = record { stored = refl; named = refl; new = refl }

assign_role_broken_socket_example :
    (assign_role memory broken true 1 "moderator" online).0 ≡ err server_error
assign_role_broken_socket_example =
    (assign_role_broken_socket memory broken true 1 "moderator" online jane moderator 9 []
      may_assign_broken refl refl).0

abbrev assigned : World memory
unfolding assign_role publish_to_user send_local send_sockets send_all
assigned = (assign_role memory working true 1 "moderator" online).1

jane_moderates : assign_role memory working true 1 "moderator" online ≡ (ok moderating, assigned)
unfolding assign_role publish_to_user send_local send_sockets send_all
jane_moderates = refl

abbrev demoted : World memory
demoted = record moderated { users = memory.users.save jane moderated.users }

jane_loses_role : revoke_role memory 1 "moderator" moderated ≡ (ok jane, demoted)
unfolding revoke_role
jane_loses_role = refl

moderated-IsConsistent : IsConsistent memory moderated.users
moderated-IsConsistent =
    update-IsConsistent memory jane moderating with_jane.users with_jane-IsConsistent refl refl refl
