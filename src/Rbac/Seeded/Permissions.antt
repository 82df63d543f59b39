-- ===== src/Rbac/Seeded/Permissions.antt =====
-- The permissions that seeding ensures.
use fastapi_auth_api.Base.{
  ◌≡◌, refl, sym, ap, ◌∙◌, String, true, inl, inr, none, some, List, [], ◌∷◌, map, contains, str_eq,
  eq_iff, All, arith, Bool-cases, Option-cases, ◌==◌, ==_iff,
}
use fastapi_auth_api.Models.{Permission}
use fastapi_auth_api.Rbac.Seeding.{PermissionTable, ensure_permission, ensure_permissions}
use fastapi_auth_api.Rbac.Seeded.Names.{Knows}

module _ (pt : PermissionTable) where
  abbrev pub HasName : String → pt.State → Type 0
  HasName name s = (p : Permission) × (pt.get p.id s ≡ some p) × (p.name ≡ name)

  found_again :
      (name description : String) (s : pt.State)
      → HasName name s
      → (p : Permission) × (ensure_permission pt name description s ≡ (p, s))
        × (p.name ≡ name)
        × (pt.get p.id s ≡ some p)
  unfolding ensure_permission
  found_again name description s (q, stored, same) =
      elim (Option-cases (pt.scalar (λ p. str_eq p.name name) s)) [
        | inl e ↦
            let no = pt.scalar_none (λ p. str_eq p.name name) q.id q s e stored in
            let yes' = (eq_iff q.name name).1 same in absurd (ground (arith, no, yes'))
        | inr (p, e) ↦
            let (holds, there) = pt.scalar_sound (λ p. str_eq p.name name) p s e in
            (p, rw e refl, (eq_iff p.name name).0 holds, there)
      ]

  HasName-save :
      (name : String) (p : Permission) (s : pt.State)
      → pt.get p.id s ≡ none
      → HasName name s
      → HasName name (pt.save p s)
  HasName-save name p s new (q, stored, same) = (
    q,
    elim (Bool-cases (q.id == p.id)) [
      | inl e ↦ absurd (ground (arith, new, stored, ap (λ i. pt.get i s) ((==_iff q.id p.id).0 e)))
      | inr e ↦ rw (pt.get-save q.id p s, e) stored
    ],
    same,
  )

  -- After a permission is ensured it has its name and is stored, and so is what was before.
  ensured :
      (name description : String) (s : pt.State)
      → ((ensure_permission pt name description s).0.name ≡ name)
        × HasName name (ensure_permission pt name description s).1
        × ((m : String) → HasName m s → HasName m (ensure_permission pt name description s).1)
  unfolding ensure_permission
  ensured name description s = elim (Option-cases (pt.scalar (λ p. str_eq p.name name) s)) [
    | inr (p, e) ↦
        let (holds, there) = pt.scalar_sound (λ p. str_eq p.name name) p s e in
        let same = (eq_iff p.name name).0 holds in rw e (same, (p, there, same), λ m h. h)
    | inl e ↦
        let new : Permission = record {
          id = pt.next_id s;
          name = name;
          description = some description;
        } in
        let stored : pt.get new.id (pt.save new s) ≡ some new =
          rw (pt.get-save new.id new s) (ground arith) in
        rw e (refl, (new, stored, refl), λ m h. HasName-save m new s (pt.next_id_fresh s) h)
  ]

  abbrev keys : List (String × String) → List String
  keys l = map (λ e. e.0) l

  pub kept_all :
      (l : List (String × String)) (s : pt.State) (m : String)
      → HasName m s
      → HasName m (ensure_permissions pt l s).1
  unfolding ensure_permissions
  kept_all [] s m h = h
  kept_all ((name, description) ∷ rest) s m h =
      kept_all rest (ensure_permission pt name description s).1 m
        ((ensured name description s).2 m h)

  pub stored_all :
      (l : List (String × String)) (s : pt.State)
      → All (λ e. HasName e.0 (ensure_permissions pt l s).1) l
  unfolding ensure_permissions
  stored_all [] s = tt
  stored_all ((name, description) ∷ rest) s =
      let s' = (ensure_permission pt name description s).1 in
      (kept_all rest s' name (ensured name description s).1, stored_all rest s')

  -- Where all are stored, nothing is written.
  pub unchanged_all :
      (l : List (String × String)) (s : pt.State)
      → All (λ e. HasName e.0 s) l
      → (ensure_permissions pt l s).1 ≡ s
  unfolding ensure_permissions
  unchanged_all [] s all = refl
  unchanged_all ((name, description) ∷ rest) s (h, all) =
      let (p, e, same, there) = found_again name description s h in
      ap (λ r. (ensure_permissions pt rest r.1).1) e ∙ unchanged_all rest s all

  pub known_all :
      (l : List (String × String)) (s : pt.State) (m : String)
      → contains m (keys l) ≡ true
      → Knows (ensure_permissions pt l s).0 m
  unfolding ensure_permissions
  known_all [] s m h = absurd (ground arith)
  known_all ((name, description) ∷ rest) s m h = elim (Bool-cases (str_eq m name)) [
    | inl e ↦ (
      (ensure_permission pt name description s).0,
      rw e refl,
      (ensured name description s).0 ∙ sym ((eq_iff m name).0 e),
    )
    | inr e ↦
        let (p, found, same) =
          known_all rest (ensure_permission pt name description s).1 m (rw e at h) in
        (p, rw e found, same)
  ]
