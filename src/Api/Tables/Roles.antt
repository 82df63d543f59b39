-- ===== src/Api/Tables/Roles.antt =====
-- The handlers of app/api/admin.py keep the users table consistent.
use fastapi_auth_api.Base.{
  ℕ, ◌≡◌, refl, sym, subst, String, Bool, false, inl, inr, Option, [], ◌∷◌, arith, Option-cases,
  Bool-cases, ◌==◌, any, keep,
}
use fastapi_auth_api.Http.Rules.{Keeps}
use fastapi_auth_api.Models.{User}
use fastapi_auth_api.Services.{Services}
use fastapi_auth_api.Accounts.{get_self, IsConsistent, update-IsConsistent}
use fastapi_auth_api.Realtime.{publish_to_user}
use fastapi_auth_api.Admin
use fastapi_auth_api.Admin.{
  given, update_user_status, assign_role, revoke_role, update_user_status_route,
  deactivate_user_route, assign_role_route, revoke_role_route,
}
use fastapi_auth_api.Admin.Effects.{assign_role_stores, is_named}
use fastapi_auth_api.Api.Callers.{by_permitted}
use fastapi_auth_api.Api.Tables.Sessions.{IsFine}

module _ (sv : Services) (now : ℕ) where
  settled :
      {v : sv.users.State} (v' : sv.users.State) → v ≡ v' → IsConsistent sv v' → IsConsistent sv v
  settled v' e c = subst (IsConsistent sv) (sym e) c

  set_status-Keeps :
      (id : ℕ) (is_active is_verified : Option Bool)
      → Keeps (IsFine sv now) (update_user_status sv id is_active is_verified)
  unfolding update_user_status
  set_status-Keeps id is_active is_verified w c = elim (Option-cases (sv.users.get id w.users)) [
    | inl e ↦ settled w.users (ground (arith, e)) c
    | inr (user, e) ↦
        let updated : User = record user {
          is_active = given is_active user.is_active;
          is_verified = given is_verified user.is_verified;
        } in
        settled (sv.users.save updated w.users) (ground (arith, e))
          (update-IsConsistent sv user updated w.users c (get_self sv id user w.users e) refl refl)
  ]

  deactivate-Keeps : (id : ℕ) → Keeps (IsFine sv now) (Admin.deactivate_user sv id)
  unfolding Admin.deactivate_user
  deactivate-Keeps id w c = elim (Option-cases (sv.users.get id w.users)) [
    | inl e ↦ settled w.users (ground (arith, e)) c
    | inr (user, e) ↦
        let updated : User = record user { is_active = false } in
        settled (sv.users.save updated w.users) (ground (arith, e))
          (update-IsConsistent sv user updated w.users c (get_self sv id user w.users e) refl refl)
  ]

  revoke-Keeps : (id : ℕ) (name : String) → Keeps (IsFine sv now) (revoke_role sv id name)
  unfolding revoke_role
  revoke-Keeps id name w c = elim (Option-cases (sv.users.get id w.users)) [
    | inl e ↦ settled w.users (ground (arith, e)) c
    | inr (user, e) ↦
        let updated : User = record user {
          roles = keep (λ i. Admin.is_kept name (sv.roles.get i w.roles)) user.roles;
        } in
        settled (sv.users.save updated w.users) (ground (arith, e))
          (update-IsConsistent sv user updated w.users c (get_self sv id user w.users e) refl refl)
  ]

  assign-Keeps :
      (works : ℕ → Bool) (reachable : Bool) (id : ℕ) (name : String)
      → Keeps (IsFine sv now) (assign_role sv works reachable id name)
  unfolding assign_role publish_to_user
  assign-Keeps works reachable id name w c = elim (Option-cases (sv.users.get id w.users)) [
    | inl e ↦ settled w.users (ground (arith, e)) c
    | inr (user, e) ↦ elim (Option-cases (sv.roles.scalar (is_named name) w.roles)) [
      | inl f ↦ settled w.users (ground (arith, e, f)) c
      | inr (role, f) ↦ elim (Bool-cases (any (λ i. i == role.id) user.roles)) [
        | inl old ↦ settled w.users (ground (arith, e, f, old)) c
        | inr new ↦
            (assign_role_stores sv works reachable id name w user role 0 c
              (record { stored = e; named = f; new = new })).0
      ]
    ]
  ]

  module _ (token : sv.jwt.Token) where
    pub set_status_route-Keeps :
        (id : ℕ) (is_active is_verified : Option Bool)
        → Keeps (IsFine sv now) (update_user_status_route sv now token id is_active is_verified)
    unfolding update_user_status_route
    set_status_route-Keeps id is_active is_verified w c =
        by_permitted sv now token w (IsFine sv now) ("users:write" ∷ [])
          (update_user_status sv id is_active is_verified)
          (set_status-Keeps id is_active is_verified w c) c

    pub deactivate_route-Keeps :
        (id : ℕ) → Keeps (IsFine sv now) (deactivate_user_route sv now token id)
    unfolding deactivate_user_route
    deactivate_route-Keeps id w c =
        by_permitted sv now token w (IsFine sv now) ("users:delete" ∷ [])
          (Admin.deactivate_user sv id) (deactivate-Keeps id w c) c

    pub assign_route-Keeps :
        (works : ℕ → Bool) (reachable : Bool) (id : ℕ) (name : String)
        → Keeps (IsFine sv now) (assign_role_route sv now token works reachable id name)
    unfolding assign_role_route
    assign_route-Keeps works reachable id name w c =
        by_permitted sv now token w (IsFine sv now) ("roles:manage" ∷ [])
          (assign_role sv works reachable id name) (assign-Keeps works reachable id name w c) c

    pub revoke_route-Keeps :
        (id : ℕ) (name : String) → Keeps (IsFine sv now) (revoke_role_route sv now token id name)
    unfolding revoke_role_route
    revoke_route-Keeps id name w c =
        by_permitted sv now token w (IsFine sv now) ("roles:manage" ∷ []) (revoke_role sv id name)
          (revoke-Keeps id name w c) c
