-- ===== src/Rbac/Checks.antt =====
-- Which requests the role and permission checks let through.
use fastapi_auth_api.Base.{
  ℕ, ◌≡◌, ◌↔◌, refl, String, true, ◌⊎◌, inl, inr, List, [], ◌∷◌, ◌++◌, map, arith, Bool-cases,
  contains, All, eq_iff, str_eq,
}
use fastapi_auth_api.Http.{ok}
use fastapi_auth_api.Models.{Role, User}
use fastapi_auth_api.Services.{Services, World}
use fastapi_auth_api.Services.Table.{Occurs}
use fastapi_auth_api.Dependencies.{get_current_user}
use fastapi_auth_api.Rbac.{
  permission_names, roles_of, shares, covers, require_roles, require_permissions,
}

contains_sound : (x : String) (ys : List String) → contains x ys ≡ true → Occurs x ys
contains_sound x [] h = absurd (ground arith)
contains_sound x (y ∷ ys) h = elim (Bool-cases (str_eq x y)) [
  | inl e ↦ inl ((eq_iff x y).0 e)
  | inr e ↦ inr (contains_sound x ys (ground arith))
]

contains_complete : (x : String) (ys : List String) → Occurs x ys → contains x ys ≡ true
contains_complete x [] h = absurd h
contains_complete x (y ∷ ys) (inl e) = ground (arith, eq_iff x y)
contains_complete x (y ∷ ys) (inr h) = ground (arith, contains_complete x ys h)

module _ {A : Type 0} (x : A) where
  Occurs-append : (xs ys : List A) → Occurs x (xs ++ ys) → Occurs x xs ⊎ Occurs x ys
  Occurs-append [] ys h = inr h
  Occurs-append (z ∷ xs) ys (inl e) = inl (inl e)
  Occurs-append (z ∷ xs) ys (inr h) = elim (Occurs-append xs ys h) [
    | inl a ↦ inl (inr a)
    | inr b ↦ inr b
  ]

  before-Occurs : (xs ys : List A) → Occurs x xs → Occurs x (xs ++ ys)
  before-Occurs [] ys h = absurd h
  before-Occurs (z ∷ xs) ys (inl e) = inl e
  before-Occurs (z ∷ xs) ys (inr h) = inr (before-Occurs xs ys h)

  beyond-Occurs : (xs ys : List A) → Occurs x ys → Occurs x (xs ++ ys)
  beyond-Occurs [] ys h = h
  beyond-Occurs (z ∷ xs) ys h = inr (beyond-Occurs xs ys h)

-- Some role of the list has a permission of this name.
abbrev pub Grants : List Role → String → Type 0
Grants roles name =
    (role : Role) × Occurs role roles × Occurs name (map (λ p. p.name) role.permissions)

-- Some role of the list has one of these names.
abbrev pub IsOneOf : List String → List Role → Type 0
IsOneOf names roles = (role : Role) × Occurs role roles × Occurs role.name names

found-Grants :
    (name : String) (roles : List Role) → Occurs name (permission_names roles) → Grants roles name
found-Grants name [] h = absurd h
found-Grants name (role ∷ rest) h =
    elim (Occurs-append name (map (λ p. p.name) role.permissions) (permission_names rest) h) [
      | inl a ↦ (role, inl refl, a)
      | inr b ↦ let (r, occurs, has) = found-Grants name rest b in (r, inr occurs, has)
    ]

complete-Grants :
    (name : String) (role : Role) (roles : List Role)
    → Occurs role roles
    → Occurs name (map (λ p. p.name) role.permissions)
    → Occurs name (permission_names roles)
complete-Grants name role [] h has = absurd h
complete-Grants name role (r ∷ rest) (inl e) has =
    before-Occurs name (map (λ p. p.name) r.permissions) (permission_names rest) (rw (← e) has)
complete-Grants name role (r ∷ rest) (inr h) has =
    beyond-Occurs name (map (λ p. p.name) r.permissions) (permission_names rest)
      (complete-Grants name role rest h has)

module _ (sv : Services) where
  covers_sound :
      (required : List String) (roles : List Role)
      → covers sv required roles ≡ true
      → All (Grants roles) required
  covers_sound [] roles h = tt
  covers_sound (name ∷ rest) roles h =
      let head : contains name (permission_names roles) ≡ true = ground arith in
      (
        found-Grants name roles (contains_sound name (permission_names roles) head),
        covers_sound rest roles (ground arith),
      )

  covers_complete :
      (required : List String) (roles : List Role)
      → All (Grants roles) required
      → covers sv required roles ≡ true
  covers_complete [] roles h = refl
  covers_complete (name ∷ rest) roles (g, later) =
      let occurs = complete-Grants name g.0 roles g.1 g.2 in
      ground (
        arith,
        contains_complete name (permission_names roles) occurs,
        covers_complete rest roles later,
      )

  shares_sound :
      (allowed : List String) (roles : List Role)
      → shares sv allowed roles ≡ true
      → IsOneOf allowed roles
  shares_sound allowed [] h = absurd (ground arith)
  shares_sound allowed (role ∷ rest) h = elim (Bool-cases (contains role.name allowed)) [
    | inl e ↦ (role, inl refl, contains_sound role.name allowed e)
    | inr e ↦
        let (r, occurs, named) = shares_sound allowed rest (ground arith) in (r, inr occurs, named)
  ]

  shares_complete :
      (allowed : List String) (role : Role) (roles : List Role)
      → Occurs role roles
      → Occurs role.name allowed
      → shares sv allowed roles ≡ true
  shares_complete allowed role [] h named = absurd h
  shares_complete allowed role (r ∷ rest) (inl e) named =
      let here : contains role.name allowed ≡ true = contains_complete role.name allowed named in
      let there : contains r.name allowed ≡ true = rw (← e) here in ground arith
  shares_complete allowed role (r ∷ rest) (inr h) named =
      ground (arith, shares_complete allowed role rest h named)

module _ (sv : Services) (now : ℕ) (token : sv.jwt.Token) (w : World sv) (user : User) where
  -- A request passes the permission check as a user exactly when `get_current_user` lets it
  -- through as that user and for every required permission some role of the user grants it.
  pub require_permissions_iff :
      (required : List String)
      → (require_permissions sv now token required w ≡ (ok user, w)) ↔ (
          (get_current_user sv now token w ≡ (ok user, w))
          × All (Grants (roles_of sv user w)) required)
  unfolding require_permissions
  require_permissions_iff required = (
    λ h.
        let passed : get_current_user sv now token w ≡ (ok user, w) = ground arith in
        (passed, covers_sound sv required (roles_of sv user w) (ground (arith, passed))),
    λ h. ground (arith, h.0, covers_complete sv required (roles_of sv user w) h.1),
  )

  -- A request passes the role check as a user exactly when `get_current_user` lets it through as
  -- that user and some role of the user has one of the allowed names.
  pub require_roles_iff :
      (allowed : List String)
      → (require_roles sv now token allowed w ≡ (ok user, w))
        ↔ ((get_current_user sv now token w ≡ (ok user, w)) × IsOneOf allowed (roles_of sv user w))
  unfolding require_roles
  require_roles_iff allowed = (
    λ h.
        let passed : get_current_user sv now token w ≡ (ok user, w) = ground arith in
        (passed, shares_sound sv allowed (roles_of sv user w) (ground (arith, passed))),
    λ h.
        let one = h.1 in
        ground (arith, h.0, shares_complete sv allowed one.0 (roles_of sv user w) one.1 one.2),
  )
