-- ===== src/Admin/Effects.antt =====
-- What the calls of an administrator do to the tables.
use fastapi_auth_api.Base.{
  ℕ, ◌≡◌, refl, sym, subst, String, Bool, true, false, Option, none, some, List, [], ◌∷◌, ◌++◌,
  arith, Option-cases, Bool-cases, inl, inr, ◌==◌, ==_refl, if◌then◌else◌, str_eq, any, keep, All,
}
use fastapi_auth_api.Http.{server_error, ok, err}
use fastapi_auth_api.Models.{User, Role}
use fastapi_auth_api.Services.{Services, World}
use fastapi_auth_api.Connections.{send_local, send_sockets, send_all, lookup}
use fastapi_auth_api.Accounts.{get_self, IsConsistent, update-IsConsistent}
use fastapi_auth_api.Rbac.{rows_of, with_role}
use fastapi_auth_api.Realtime.{publish_to_user}
use fastapi_auth_api.Admin.{
  no_user, given, is_kept, update_user_status, deactivate_user, assign_role, revoke_role,
}

module _ (sv : Services) (user_id : ℕ) (w : World sv) where
  -- A change of the flags that succeeds was for a stored account; it keeps a consistent table
  -- consistent, sets the flags that are given and leaves the other, and changes no other account.
  pub update_user_status_effect :
      (is_active is_verified : Option Bool) (i : ℕ) {user' : User} {w' : World sv}
      → IsConsistent sv w.users
      → update_user_status sv user_id is_active is_verified w ≡ (ok user', w')
      → (user : User) × (sv.users.get user_id w.users ≡ some user)
        × IsConsistent sv w'.users
        × (user' ≡ record user {
          is_active = given is_active user.is_active;
          is_verified = given is_verified user.is_verified;
        })
        × (sv.users.get i w'.users ≡ (if i == user_id then some user' else sv.users.get i w.users))
  unfolding update_user_status
  update_user_status_effect is_active is_verified i {user'} {w'} c h =
      elim (Option-cases (sv.users.get user_id w.users)) [
        | inl e ↦ absurd (ground arith)
        | inr (user, e) ↦
            let key : user.id ≡ user_id = sv.users.get_key user_id user w.users e in
            let updated : User = record user {
              is_active = given is_active user.is_active;
              is_verified = given is_verified user.is_verified;
            } in
            let stored : sv.users.get user.id w.users ≡ some user =
              get_self sv user_id user w.users e in
            let same : user' ≡ updated = ground arith in
            let state : w' ≡ record w { users = sv.users.save updated w.users } = ground arith in
            (
              user,
              e,
              rw state (update-IsConsistent sv user updated w.users c stored refl refl),
              same,
              ground (arith, state, same, key, sv.users.get-save i updated w.users),
            )
      ]

  -- Each of the calls that change an account answers 404 without a change where there is none of
  -- the id.
  pub missing_account :
      (is_active is_verified : Option Bool) (works : ℕ → Bool) (reachable : Bool) (name : String)
      → sv.users.get user_id w.users ≡ none
      → (update_user_status sv user_id is_active is_verified w ≡ (err no_user, w))
        × (deactivate_user sv user_id w ≡ (err no_user, w))
        × (assign_role sv works reachable user_id name w ≡ (err no_user, w))
        × (revoke_role sv user_id name w ≡ (err no_user, w))
  unfolding update_user_status deactivate_user assign_role revoke_role
  missing_account is_active is_verified works reachable name h =
      (ground arith, ground arith, ground arith, ground arith)

module _ (sv : Services) (name : String) (s : sv.roles.State) where
  -- None of these role ids names this role.
  abbrev pub Lacks : List ℕ → Type 0
  Lacks ids = All (λ r. (str_eq r.name name) ≡ false) (rows_of sv ids s)

  extended-Lacks :
      (i : ℕ) (ids : List ℕ) (o : Option Role)
      → sv.roles.get i s ≡ o
      → Lacks ids
      → Lacks (if is_kept name o then i ∷ ids else ids)
  extended-Lacks i ids none e later = later
  extended-Lacks i ids (some role) e later = elim (Bool-cases (str_eq role.name name)) [
    | inl named ↦ rw named later
    | inr other ↦
        let rows = rows_of sv ids s in
        let here : Lacks (i ∷ ids) =
          subst (λ o. All (λ r. (str_eq r.name name) ≡ false) (with_role o rows)) (sym e)
            (other, later) in
        rw other here
  ]

  Lacks-keep : (ids : List ℕ) → Lacks (keep (λ i. is_kept name (sv.roles.get i s)) ids)
  Lacks-keep [] = tt
  Lacks-keep (i ∷ is) =
      extended-Lacks i (keep (λ j. is_kept name (sv.roles.get j s)) is) (sv.roles.get i s) refl
        (Lacks-keep is)

module _ (sv : Services) (user_id : ℕ) (name : String) (w : World sv) where
  -- A revocation that succeeds was for a stored account, keeps a consistent table consistent, and
  -- stores the account without any role of that name; no other account changes.
  pub revoke_role_effect :
      (i : ℕ) {user' : User} {w' : World sv}
      → IsConsistent sv w.users
      → revoke_role sv user_id name w ≡ (ok user', w')
      → IsConsistent sv w'.users
        × Lacks sv name w'.roles user'.roles
        × (sv.users.get i w'.users ≡ (if i == user_id then some user' else sv.users.get i w.users))
  unfolding revoke_role
  revoke_role_effect i {user'} {w'} c h = elim (Option-cases (sv.users.get user_id w.users)) [
    | inl e ↦ absurd (ground arith)
    | inr (user, e) ↦
        let key : user.id ≡ user_id = sv.users.get_key user_id user w.users e in
        let kept : List ℕ = keep (λ j. is_kept name (sv.roles.get j w.roles)) user.roles in
        let updated : User = record user { roles = kept } in
        let stored : sv.users.get user.id w.users ≡ some user =
          get_self sv user_id user w.users e in
        let same : user' ≡ updated = ground arith in
        let state : w' ≡ record w { users = sv.users.save updated w.users } = ground arith in
        (
          rw state (update-IsConsistent sv user updated w.users c stored refl refl),
          rw state (rw same (Lacks-keep sv name w.roles user.roles)),
          ground (arith, state, same, key, sv.users.get-save i updated w.users),
        )
  ]

any_appended : (i : ℕ) (is : List ℕ) → any (λ j. j == i) (is ++ i ∷ []) ≡ true
any_appended i [] = ground (arith, ==_refl i)
any_appended i (j ∷ js) = ground (arith, any_appended i js)

abbrev pub is_named : String → Role → Bool
is_named name r = str_eq r.name name

module _ (sv : Services) (works : ℕ → Bool) (reachable : Bool) (user_id : ℕ) (name : String)
    (w : World sv) (user : User) (role : Role) where
  abbrev pub with_grant : User
  with_grant = record user { roles = user.roles ++ role.id ∷ [] }

  -- What an assignment finds: the account, and a role of the name that the account has not yet.
  pub record MayAssign : Type 0 where
    pub stored : sv.users.get user_id w.users ≡ some user
    pub named : sv.roles.scalar (is_named name) w.roles ≡ some role
    pub new : any (λ i. i == role.id) user.roles ≡ false

  -- The stored account has the new role, however its announcement ends, and a consistent table
  -- stays consistent; no other account changes.
  pub assign_role_stores :
      (i : ℕ)
      → IsConsistent sv w.users
      → MayAssign
      → IsConsistent sv (assign_role sv works reachable user_id name w).1.users
        × (any (λ j. j == role.id) with_grant.roles ≡ true)
        × (sv.users.get i (assign_role sv works reachable user_id name w).1.users
            ≡ (if i == user_id then some with_grant else sv.users.get i w.users))
  unfolding assign_role publish_to_user
  assign_role_stores i c may =
      let state : (assign_role sv works reachable user_id name w).1.users
          ≡ sv.users.save with_grant w.users =
        ground (arith, may.stored, may.named, may.new) in
      let self = get_self sv user_id user w.users may.stored in
      (
        rw state (update-IsConsistent sv user with_grant w.users c self refl refl),
        any_appended role.id user.roles,
        ground (
          arith,
          state,
          sv.users.get_key user_id user w.users may.stored,
          sv.users.get-save i with_grant w.users,
        ),
      )

  -- An assignment to a user the first of whose open sockets is broken answers 500, although the
  -- account has the role from then on.
  pub assign_role_broken_socket :
      (socket : ℕ) (others : List ℕ)
      → MayAssign
      → lookup user.id w.connections ≡ some (socket ∷ others)
      → works socket ≡ false
      → ((assign_role sv works reachable user_id name w).0 ≡ err server_error)
        × (sv.users.get user_id (assign_role sv works reachable user_id name w).1.users
            ≡ some with_grant)
  unfolding assign_role publish_to_user send_local send_sockets send_all
  assign_role_broken_socket socket others may opened broken =
      let state : (assign_role sv works reachable user_id name w).1.users
          ≡ sv.users.save with_grant w.users =
        ground (arith, may.stored, may.named, may.new) in
      (
        ground (arith, may.stored, may.named, may.new, opened, broken),
        ground (
          arith,
          state,
          sv.users.get_key user_id user w.users may.stored,
          sv.users.get-save user_id with_grant w.users,
        ),
      )

-- Assigning a role that a call has just assigned answers the same account and changes nothing.
pub assign_role_again :
    (sv : Services) (works : ℕ → Bool) (reachable : Bool) (user_id : ℕ) (name : String)
    (w : World sv) {user' : User} {w' : World sv}
    → assign_role sv works reachable user_id name w ≡ (ok user', w')
    → assign_role sv works reachable user_id name w' ≡ (ok user', w')
unfolding assign_role publish_to_user
assign_role_again sv works reachable user_id name w {user'} {w'} h =
    elim (Option-cases (sv.users.get user_id w.users)) [
      | inl e ↦ absurd (ground arith)
      | inr (user, e) ↦ elim (Option-cases (sv.roles.scalar (is_named name) w.roles)) [
        | inl f ↦ absurd (ground arith)
        | inr (role, f) ↦ ground (
          arith,
          e,
          f,
          any_appended role.id user.roles,
          sv.users.get_key user_id user w.users e,
          sv.users.get-save user_id (with_grant sv works reachable user_id name w user role)
              w.users,
        )
      ]
    ]
