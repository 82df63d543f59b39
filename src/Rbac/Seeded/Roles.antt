-- ===== src/Rbac/Seeded/Roles.antt =====
-- The roles that seeding ensures, and the permissions that it gives them.
use mathlib.Core.List.{append-nil}
use fastapi_auth_api.Base.{
  ℕ, ◌≡◌, refl, sym, ap, ◌∙◌, subst, String, true, false, ◌⊎◌, inl, inr, none, some, List, [], ◌∷◌,
  ◌++◌, contains, str_eq, eq_iff, All, arith, Bool-cases, Option-cases, ◌==◌, ==_iff, ==_refl,
}
use fastapi_auth_api.Models.{Permission, Role}
use fastapi_auth_api.Rbac.Seeding.{
  RoleTable, or_new_role, append_permissions, seed_role, wanted_of, missing, names_of,
}
use fastapi_auth_api.Rbac.Seeded.Names.{
  Knows, Covers, pick_known, All-missing, appended-Covers, Covers-more, contains-names_of_append,
}

module _ (rt : RoleTable) where
  -- `unique=True` of the name of a role.
  abbrev pub UniqueNames : rt.State → Type 0
  UniqueNames s =
      (i j : ℕ) (a b : Role) → rt.get i s ≡ some a → rt.get j s ≡ some b → a.name ≡ b.name → i ≡ j

  -- A role of that name is stored and has these permissions.
  abbrev pub Provides : String → List String → rt.State → Type 0
  Provides name wanted s =
      (r : Role) × (rt.get r.id s ≡ some r) × (r.name ≡ name) × Covers r.permissions wanted

  abbrev NoName : String → rt.State → Type 0
  NoName name s = (i : ℕ) (r : Role) → rt.get i s ≡ some r → str_eq r.name name ≡ false

  -- The row is new, with a new name, or has the id and name of a stored one and its permissions.
  abbrev Extends : Role → rt.State → Type 0
  Extends r s =
      ((rt.get r.id s ≡ none) × NoName r.name s)
      ⊎ ((old : Role) × (rt.get r.id s ≡ some old)
          × (old.name ≡ r.name)
          × ((m : String)
              → contains m (names_of old.permissions) ≡ true
              → contains m (names_of r.permissions) ≡ true))

  -- What seeding the role of a name does not break.
  pub record Grown (name : String) (s s' : rt.State) : Type 0 where
    pub unique : UniqueNames s → UniqueNames s'
    pub provides : (m : String) (w : List String) → Provides m w s → Provides m w s'
    pub others :
        (i : ℕ) (r : Role) → rt.get i s ≡ some r → str_eq r.name name ≡ false → rt.get i s' ≡ some r

  Grown-refl : (name : String) (s : rt.State) → Grown name s s
  Grown-refl name s = record { unique = λ u. u; provides = λ m w p. p; others = λ i r h e. h }

  Grown-trans :
      (name : String) (s s' s'' : rt.State) → Grown name s s' → Grown name s' s'' → Grown name s s''
  Grown-trans name s s' s'' g h = record {
    unique = λ u. h.unique (g.unique u);
    provides = λ m w p. h.provides m w (g.provides m w p);
    others = λ i r p e. h.others i r (g.others i r p e) e;
  }

  module _ (r : Role) (s : rt.State) where
    -- A row after the save: the saved one, or another one from before.
    after_save :
        (i : ℕ) (x : Role)
        → rt.get i (rt.save r s) ≡ some x
        → ((i ≡ r.id) × (r ≡ x)) ⊎ (((i == r.id) ≡ false) × (rt.get i s ≡ some x))
    after_save i x h = elim (Bool-cases (i == r.id)) [
      | inl e ↦ inl ((==_iff i r.id).0 e, ground (arith, rt.get-save i r s, h, e))
      | inr e ↦ inr (e, ground (arith, rt.get-save i r s, h, e))
    ]

    stays : (i : ℕ) → (i == r.id) ≡ false → rt.get i (rt.save r s) ≡ rt.get i s
    stays i e = rw (rt.get-save i r s, e) refl

    saved : rt.get r.id (rt.save r s) ≡ some r
    saved = rw (rt.get-save r.id r s, ==_refl r.id) refl

    -- A stored row with the name of the saved row stands at its id.
    same_place :
        UniqueNames s
        → Extends r s
        → (i : ℕ) (x : Role) → rt.get i s ≡ some x
        → x.name ≡ r.name
        → i ≡ r.id
    same_place u (inl (new, unnamed)) i x h e =
        let f = unnamed i x h in let t = (eq_iff x.name r.name).1 e in absurd (ground (arith, f, t))
    same_place u (inr (old, there, same, more)) i x h e = u i r.id x old h there (e ∙ sym same)

    save_unique : Extends r s → UniqueNames s → UniqueNames (rt.save r s)
    save_unique ext u i j a b p q e = elim (after_save i a p) [
      | inl (here, same) ↦ elim (after_save j b q) [
        | inl (here', same') ↦ here ∙ sym here'
        | inr (there', q') ↦
            here ∙ sym (same_place u ext j b q' (sym e ∙ ap (λ (x : Role). x.name) (sym same)))
      ]
      | inr (there, p') ↦ elim (after_save j b q) [
        | inl (here', same') ↦
            same_place u ext i a p' (e ∙ ap (λ (x : Role). x.name) (sym same')) ∙ sym here'
        | inr (there', q') ↦ u i j a b p' q' e
      ]
    ]

    save_provides :
        Extends r s → (m : String) (w : List String) → Provides m w s → Provides m w (rt.save r s)
    save_provides ext m w (x, stored, named, covers) = elim (Bool-cases (x.id == r.id)) [
      | inr e ↦ (x, stays x.id e ∙ stored, named, covers)
      | inl e ↦
          let here : rt.get r.id s ≡ some x =
            ap (λ i. rt.get i s) (sym ((==_iff x.id r.id).0 e)) ∙ stored in
          elim ext [
            | inl (new, unnamed) ↦ absurd (ground (arith, new, here))
            | inr (old, there, same, more) ↦
                let one : old ≡ x = ground (arith, there, here) in
                (
                  r,
                  saved,
                  sym same ∙ ap (λ (y : Role). y.name) one ∙ named,
                  Covers-more w old.permissions r.permissions more
                      (subst (λ (y : Role). Covers y.permissions w) (sym one) covers),
                )
          ]
    ]

    save_others :
        Extends r s
        → (i : ℕ) (x : Role) → rt.get i s ≡ some x
        → str_eq x.name r.name ≡ false
        → rt.get i (rt.save r s) ≡ some x
    save_others ext i x h e = elim (Bool-cases (i == r.id)) [
      | inr f ↦ stays i f ∙ h
      | inl f ↦
          let here : rt.get r.id s ≡ some x =
            ap (λ j. rt.get j s) (sym ((==_iff i r.id).0 f)) ∙ h in
          elim ext [
            | inl (new, unnamed) ↦ absurd (ground (arith, new, here))
            | inr (old, there, same, more) ↦
                let one : old ≡ x = ground (arith, there, here) in
                let t = (eq_iff x.name r.name).1 (ap (λ (y : Role). y.name) (sym one) ∙ same) in
                absurd (ground (arith, e, t))
          ]
    ]

    save-Grown : Extends r s → Grown r.name s (rt.save r s)
    save-Grown ext = record {
      unique = save_unique ext;
      provides = save_provides ext;
      others = save_others ext;
    }

  -- The role that is found or made has the name and is stored; little else has changed.
  role_ensured :
      (name description : String) (s : rt.State)
      → let made = or_new_role rt name description (rt.scalar (λ r. str_eq r.name name) s) s in
        (made.0.name ≡ name) × (rt.get made.0.id made.1 ≡ some made.0) × Grown name s made.1
  role_ensured name description s = elim (Option-cases (rt.scalar (λ r. str_eq r.name name) s)) [
    | inr (r, e) ↦
        let (holds, there) = rt.scalar_sound (λ r. str_eq r.name name) r s e in
        rw e ((eq_iff r.name name).0 holds, there, Grown-refl name s)
    | inl e ↦
        let new : Role = record {
          id = rt.next_id s;
          name = name;
          description = some description;
          permissions = [];
        } in
        rw e (
          refl,
          saved new s,
          save-Grown new s (
              inl
                (rt.next_id_fresh s, λ i r h. rt.scalar_none (λ r. str_eq r.name name) i r s e h)),
        )
  ]

  -- A stored role with permissions appended.
  role_appended :
      (role : Role) (ps : List Permission) (s : rt.State)
      → rt.get role.id s ≡ some role
      → (w : List String) → Covers (role.permissions ++ ps) w
      → Grown role.name s (append_permissions rt role ps s)
        × Provides role.name w (append_permissions rt role ps s)
  role_appended role [] s stored w covers =
      (Grown-refl role.name s, (role, stored, refl, rw (append-nil role.permissions) at covers))
  role_appended role (p ∷ ps) s stored w covers =
      let new : Role = record role { permissions = role.permissions ++ p ∷ ps } in
      (
        save-Grown new s (
            inr
              (role, stored, refl, λ m h. contains-names_of_append m role.permissions (p ∷ ps) h)),
        (new, saved new s, refl, covers),
      )

  pub role_seeded :
      (known : List (String × Permission)) (name description : String) (s : rt.State)
      → All (Knows known) (wanted_of name)
      → (s' : rt.State) × (seed_role rt known name description s ≡ some s')
        × Grown name s s'
        × Provides name (wanted_of name) s'
  unfolding seed_role
  role_seeded known name description s all =
      let made = or_new_role rt name description (rt.scalar (λ r. str_eq r.name name) s) s in
      let (named, stored, grown) = role_ensured name description s in
      let (ps, picked, names) =
        pick_known (missing (wanted_of name) made.0.permissions) known
          (All-missing (Knows known) (wanted_of name) made.0.permissions all) in
      let (grown', provides) =
        role_appended made.0 ps made.1 stored (wanted_of name)
          (appended-Covers (wanted_of name) made.0.permissions ps names) in
      let s' = append_permissions rt made.0 ps made.1 in
      (
        s',
        rw picked refl,
        Grown-trans name s made.1 s' grown (subst (λ n. Grown n made.1 s') named grown'),
        subst (λ n. Provides n (wanted_of name) s') named provides,
      )
