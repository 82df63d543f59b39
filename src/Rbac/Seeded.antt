-- ===== src/Rbac/Seeded.antt =====
-- What `seed_rbac_defaults` leaves, and that it may be run again.
mod Names
mod Permissions
mod Roles
use mathlib.Core.Option
use fastapi_auth_api.Base.{
  ℕ, ◌≡◌, refl, sym, ap, ◌∙◌, String, Bool, true, false, inl, inr, Option, none, some, All, List,
  [], ◌∷◌, contains, str_eq, eq_iff, arith, Option-cases,
}
use fastapi_auth_api.Models.{Permission, Role}
use fastapi_auth_api.Rbac.Seeding.{
  PermissionTable, RoleTable, default_permissions, default_roles, wanted_of, missing, pick,
  ensure_permissions, seed_role, seed_roles, seed_rbac_defaults,
}
use Names.{Knows, Covers, missing-Covers}
use Permissions.{HasName, stored_all, unchanged_all, known_all}
use Roles.{UniqueNames, Provides, Grown, role_seeded}

module _ (rt : RoleTable) (known : List (String × Permission)) where
  role_again :
      (name description : String) (s : rt.State)
      → UniqueNames rt s
      → Provides rt name (wanted_of name) s
      → seed_role rt known name description s ≡ some s
  unfolding seed_role
  role_again name description s unique (r, stored, named, covers) =
      elim (Option-cases (rt.scalar (λ x. str_eq x.name name) s)) [
        | inl e ↦
            let f = rt.scalar_none (λ x. str_eq x.name name) r.id r s e stored in
            let t = (eq_iff r.name name).1 named in absurd (ground (arith, f, t))
        | inr (x, e) ↦
            let (holds, there) = rt.scalar_sound (λ x. str_eq x.name name) x s e in
            let place =
              unique x.id r.id x r there stored ((eq_iff x.name name).0 holds ∙ sym named) in
            let same : x ≡ r = ground (arith, there, stored, ap (λ i. rt.get i s) place) in
            rw (e, same, missing-Covers (wanted_of name) r.permissions covers) refl
      ]

  roles_again :
      (l : List (String × String)) (s : rt.State)
      → UniqueNames rt s
      → All (λ e. Provides rt e.0 (wanted_of e.0) s) l
      → seed_roles rt known l s ≡ some s
  unfolding seed_roles
  roles_again [] s unique all = refl
  roles_again ((name, description) ∷ rest) s unique (provided, all) =
      ap (λ o. Option.bind o (seed_roles rt known rest))
        (role_again name description s unique provided)
      ∙ roles_again rest s unique all

  -- What seeding the roles of a list leaves.
  record Leaves (l : List (String × String)) (s s' : rt.State) : Type 0 where
    unique : UniqueNames rt s → UniqueNames rt s'
    provides : (m : String) (w : List String) → Provides rt m w s → Provides rt m w s'
    given : All (λ e. Provides rt e.0 (wanted_of e.0) s') l
    others :
        (i : ℕ) (r : Role)
        → rt.get i s ≡ some r
        → All (λ e. str_eq r.name e.0 ≡ false) l
        → rt.get i s' ≡ some r

  roles_seeded :
      (l : List (String × String)) (s : rt.State)
      → All (λ e. All (Knows known) (wanted_of e.0)) l
      → (s' : rt.State) × (seed_roles rt known l s ≡ some s') × Leaves l s s'
  unfolding seed_roles
  roles_seeded [] s all = (
    s,
    refl,
    record { unique = λ u. u; provides = λ m w p. p; given = tt; others = λ i r h e. h },
  )
  roles_seeded ((name, description) ∷ rest) s (wanted, all) =
      let (s', done, grown, provided) = role_seeded rt known name description s wanted in
      let (s'', later, seeded) = roles_seeded rest s' all in
      (
        s'',
        ap (λ o. Option.bind o (seed_roles rt known rest)) done ∙ later,
        record {
          unique = λ u. seeded.unique (grown.unique u);
          provides = λ m w p. seeded.provides m w (grown.provides m w p);
          given = (seeded.provides name (wanted_of name) provided, seeded.given);
          others = λ i r h e. seeded.others i r (grown.others i r h e.0) e.1;
        },
      )

module _ (pt : PermissionTable) (rt : RoleTable) where
  -- All permissions that the default roles want are default permissions.
  wanted_known :
      (s : pt.State)
      → All
          (λ e. All (Knows (ensure_permissions pt default_permissions s).0) (wanted_of e.0))
          default_roles
  wanted_known s =
      let k =
        λ (m : String)
            (h : contains m ("users:read" ∷ "users:write" ∷ "users:delete" ∷ "roles:manage" ∷ [])
              ≡ true).
          known_all pt default_permissions s m h in
      (
        (
          k "users:read" refl,
          (k "users:write" refl, (k "users:delete" refl, (k "roles:manage" refl, tt))),
        ),
        ((k "users:read" refl, (k "users:write" refl, tt)), (tt, tt)),
      )

  -- Where the names of roles are unique, seeding succeeds and leaves them unique. Then every default
  -- permission is stored, and every default role with all permissions it should have; what roles
  -- offered before they still offer, and roles of other names are as they were. Seeding once more
  -- changes nothing.
  pub seed_rbac_defaults_effect :
      (permissions : pt.State) (roles : rt.State)
      → UniqueNames rt roles
      → (permissions' : pt.State) × (roles' : rt.State) × (seed_rbac_defaults pt rt
            (permissions, roles)
          ≡ some (permissions', roles'))
        × UniqueNames rt roles'
        × All (λ e. HasName pt e.0 permissions') default_permissions
        × All (λ e. Provides rt e.0 (wanted_of e.0) roles') default_roles
        × ((m : String) (w : List String) → Provides rt m w roles → Provides rt m w roles')
        × ((i : ℕ) (r : Role)
            → rt.get i roles ≡ some r
            → All (λ e. str_eq r.name e.0 ≡ false) default_roles
            → rt.get i roles' ≡ some r)
        × (seed_rbac_defaults pt rt (permissions', roles') ≡ some (permissions', roles'))
  unfolding seed_rbac_defaults
  seed_rbac_defaults_effect permissions roles unique =
      let ensured = ensure_permissions pt default_permissions permissions in
      let (roles', done, seeded) =
        roles_seeded rt ensured.0 default_roles roles (wanted_known permissions) in
      let unique' = seeded.unique unique in
      let stored = stored_all pt default_permissions permissions in
      let again =
        roles_again rt (ensure_permissions pt default_permissions ensured.1).0 default_roles roles'
          unique' seeded.given in
      (
        ensured.1,
        roles',
        ap (Option.map (λ rs. (ensured.1, rs))) done,
        unique',
        stored,
        seeded.given,
        seeded.provides,
        seeded.others,
        ap (Option.map (λ rs. ((ensure_permissions pt default_permissions ensured.1).1, rs))) again
            ∙ ap (λ ps. some (ps, roles')) (unchanged_all pt default_permissions ensured.1 stored),
      )
