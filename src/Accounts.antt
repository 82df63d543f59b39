-- ===== src/Accounts.antt =====
-- The invariant of the users table that the handlers rely on: app/models/user.py declares `email`
-- unique, and the handlers look addresses up in lower case.
use fastapi_auth_api.Base.{
  ℕ, ◌≡◌, sym, ◌∙◌, ap, subst, inl, inr, none, some, arith, ==_iff, Bool-cases, Option-cases, ◌==◌,
  eq_iff,
}
use fastapi_auth_api.Models.{User}
use fastapi_auth_api.Services.{Services, World}
use fastapi_auth_api.Dependencies.{has_email, user_by_email}
use package.text.Mathlib.TextPositions.{eq_refl}

module _ (sv : Services) where
  -- No two accounts have one address, and every address is in lower case.
  pub record IsConsistent (s : sv.users.State) : Type 0 where
    pub unique :
        (i j : ℕ) (u v : User)
        → sv.users.get i s ≡ some u
        → sv.users.get j s ≡ some v
        → u.email ≡ v.email
        → i ≡ j
    pub lowered :
        (i : ℕ) (u : User) → sv.users.get i s ≡ some u → sv.runtime.lower u.email ≡ u.email

  -- Nobody but the account `u.id` has the address of `u`.
  abbrev pub IsFree : User → sv.users.State → Type 0
  IsFree u s = (i : ℕ) (v : User) → sv.users.get i s ≡ some v → v.email ≡ u.email → i ≡ u.id

  module _ (u : User) (s : sv.users.State) (c : IsConsistent s) where
    unique_after :
        IsFree u s
        → (i j : ℕ) (v v' : User) → sv.users.get i (sv.users.save u s) ≡ some v
        → sv.users.get j (sv.users.save u s) ≡ some v'
        → v.email ≡ v'.email
        → i ≡ j
    unique_after free i j v v' gi gj e = elim (Bool-cases (i == u.id)) [
      | inl a ↦ elim (Bool-cases (j == u.id)) [
        | inl b ↦ (==_iff i u.id).0 a ∙ sym ((==_iff j u.id).0 b)
        | inr b ↦
            let same : u ≡ v = ground (arith, sv.users.get-save i u s) in
            let old : sv.users.get j s ≡ some v' = ground (arith, sv.users.get-save j u s) in
            (==_iff i u.id).0 a ∙ sym (free j v' old (sym e ∙ sym (ap (λ x. x.email) same)))
      ]
      | inr a ↦
          let old : sv.users.get i s ≡ some v = ground (arith, sv.users.get-save i u s) in
          elim (Bool-cases (j == u.id)) [
            | inl b ↦
                let same : u ≡ v' = ground (arith, sv.users.get-save j u s) in
                free i v old (e ∙ sym (ap (λ x. x.email) same)) ∙ sym ((==_iff j u.id).0 b)
            | inr b ↦
                let old' : sv.users.get j s ≡ some v' = ground (arith, sv.users.get-save j u s) in
                c.unique i j v v' old old' e
          ]
    ]

    lowered_after :
        sv.runtime.lower u.email ≡ u.email
        → (i : ℕ) (v : User) → sv.users.get i (sv.users.save u s) ≡ some v
        → sv.runtime.lower v.email ≡ v.email
    lowered_after low i v g = elim (Bool-cases (i == u.id)) [
      | inl a ↦
          let same : u ≡ v = ground (arith, sv.users.get-save i u s) in
          ap (λ x. sv.runtime.lower x.email) (sym same) ∙ low ∙ ap (λ x. x.email) same
      | inr a ↦
          let old : sv.users.get i s ≡ some v = ground (arith, sv.users.get-save i u s) in
          c.lowered i v old
    ]

    -- Saving an account under a free lower-case address keeps the table consistent.
    pub save-IsConsistent :
        IsFree u s → sv.runtime.lower u.email ≡ u.email → IsConsistent (sv.users.save u s)
    save-IsConsistent free low = record { unique = unique_after free; lowered = lowered_after low }

  -- A row is stored under its own id.
  pub get_self :
      (i : ℕ) (u : User) (s : sv.users.State)
      → sv.users.get i s ≡ some u
      → sv.users.get u.id s ≡ some u
  get_self i u s h = subst (λ k. sv.users.get k s ≡ some u) (sym (sv.users.get_key i u s h)) h

  -- An address that no query finds is free.
  pub IsFree-of_none :
      (u : User) (s : sv.users.State) → sv.users.scalar (has_email u.email) s ≡ none → IsFree u s
  IsFree-of_none u s h i v g e =
      absurd
        (ground (arith, sv.users.scalar_none (has_email u.email) i v s h g, eq_iff v.email u.email))

  -- A change that keeps the id and the address of a stored account keeps the table consistent.
  pub update-IsConsistent :
      (u u' : User) (s : sv.users.State)
      → IsConsistent s
      → sv.users.get u.id s ≡ some u
      → u'.id ≡ u.id
      → u'.email ≡ u.email
      → IsConsistent (sv.users.save u' s)
  update-IsConsistent u u' s c g same_id same_email =
      save-IsConsistent u' s c (λ i v h e. c.unique i u.id v u h g (e ∙ same_email) ∙ sym same_id)
        (ap sv.runtime.lower same_email ∙ c.lowered u.id u g ∙ sym same_email)

  -- In a consistent table the query for the address of an account finds that account.
  pub user_by_email_of_get :
      (i : ℕ) (u : User) (w : World sv)
      → IsConsistent w.users
      → sv.users.get i w.users ≡ some u
      → user_by_email sv u.email w ≡ some u
  user_by_email_of_get i u w c g = elim (Option-cases (user_by_email sv u.email w)) [
    | inl e ↦
        absurd (
          ground (arith, sv.users.scalar_none (has_email u.email) i u w.users e g, eq_refl u.email))
    | inr (v, e) ↦
        let (fits, stored) = sv.users.scalar_sound (has_email u.email) v w.users e in
        let same : v.id ≡ i = c.unique v.id i v u stored g ((eq_iff v.email u.email).0 fits) in
        let stored' : sv.users.get i w.users ≡ some v = rw (← same) stored in ground arith
  ]
