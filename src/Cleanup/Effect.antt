-- ===== src/Cleanup/Effect.antt =====
-- Which rows a cleanup deletes.
use fastapi_auth_api.Base.{
  ℕ, ◌+◌, ◌*◌, ◌<◌, ◌≡◌, ap, ◌∙◌, Bool, true, false, Option, none, some, List, [], ◌∷◌, inl, inr,
  arith, ◌==◌, ==_iff, Bool-cases, All,
}
use fastapi_auth_api.Models.{User}
use fastapi_auth_api.Services.{Services, World}
use fastapi_auth_api.Services.Table.{Table, Occurs}
use fastapi_auth_api.Services.Table.Deletion.{unless}
use fastapi_auth_api.Cleanup.{is_stale, owned_by, cleanup_unverified_users, rows_after}

-- Not verified, and created more than seven days ago, in microseconds.
abbrev pub IsOverdue : ℕ → User → Type 0
IsOverdue now u = (u.is_verified ≡ false) × (u.created_at + 7 * 86400000000 < now)

is_stale-IsOverdue : (now : ℕ) (u : User) → is_stale now u ≡ true → IsOverdue now u
is_stale-IsOverdue now u h = ground arith

IsOverdue-is_stale : (now : ℕ) (u : User) → IsOverdue now u → is_stale now u ≡ true
IsOverdue-is_stale now u h = ground arith

-- What is left of a row: nothing, where the predicate holds of it; the row, where it does not.
abbrev pub Loses : {Row : Type 0} → (Row → Type 0) → Option Row → Option Row → Type 0
Loses P none after = after ≡ none
Loses P (some r) after = (P r → after ≡ none) × ((P r → ⊥) → after ≡ some r)

unless-Loses :
    {Row : Type 0} {key : Row → ℕ} (t : Table Row key) (p : Row → Bool) (P : Row → Type 0)
    → ((r : Row) → p r ≡ true → P r)
    → ((r : Row) → P r → p r ≡ true)
    → (before : Option Row) {after : Option Row} → after ≡ unless t p before
    → Loses P before after
unless-Loses t p P sound complete none h = h
unless-Loses t p P sound complete (some r) h = elim (Bool-cases (p r)) [
  | inl e ↦ (λ holds. ground (arith, h, e), λ fails. absurd (fails (sound r e)))
  | inr e ↦ (λ holds. absurd (ground (arith, e, complete r holds)), λ fails. ground (arith, h, e))
]

module _ (sv : Services) (now : ℕ) (w : World sv) where
  -- The id is that of an overdue account.
  abbrev pub OfOverdue : ℕ → Type 0
  OfOverdue user_id =
      (owner : User) × (sv.users.get user_id w.users ≡ some owner) × IsOverdue now owner

  found_owner :
      (user_id : ℕ) (users : List User)
      → All (λ u. (is_stale now u ≡ true) × (sv.users.get u.id w.users ≡ some u)) users
      → owned_by sv users user_id ≡ true
      → OfOverdue user_id
  found_owner user_id [] h e = ground arith
  found_owner user_id (u ∷ users) h e = elim (Bool-cases (user_id == u.id)) [
    | inl f ↦ (
      u,
      ap (λ k. sv.users.get k w.users) ((==_iff user_id u.id).0 f) ∙ h.0.1,
      is_stale-IsOverdue now u h.0.0,
    )
    | inr f ↦ found_owner user_id users h.1 (ground (arith, e, f))
  ]

  owner_found :
      (user_id : ℕ) (owner : User) (users : List User)
      → owner.id ≡ user_id
      → Occurs owner users
      → owned_by sv users user_id ≡ true
  owner_found user_id owner [] same o = absurd o
  owner_found user_id owner (u ∷ users) same (inl e) =
      ground (arith, same, ap (λ x. x.id) e, ==_iff user_id u.id)
  owner_found user_id owner (u ∷ users) same (inr o) =
      ground (arith, owner_found user_id owner users same o)

  stale_users_own :
      (user_id : ℕ)
      → owned_by sv (sv.users.scalars (is_stale now) w.users) user_id ≡ true
      → OfOverdue user_id
  stale_users_own user_id =
      found_owner user_id (sv.users.scalars (is_stale now) w.users)
        (sv.users.scalars_sound (is_stale now) w.users)

  own_stale_users :
      (user_id : ℕ)
      → OfOverdue user_id
      → owned_by sv (sv.users.scalars (is_stale now) w.users) user_id ≡ true
  own_stale_users user_id (owner, stored, overdue) =
      owner_found user_id owner (sv.users.scalars (is_stale now) w.users)
        (sv.users.get_key user_id owner w.users stored)
        (sv.users.scalars_complete (is_stale now) user_id owner w.users stored
          (IsOverdue-is_stale now owner overdue))

  -- A cleanup deletes exactly the stored accounts that are not verified and were created more than
  -- seven days ago, and the links and the files whose account is stored and is one of these. Every
  -- other row of the three tables stays as it is.
  pub cleanup_unverified_users_effect :
      (i j k : ℕ)
      → Loses
          (IsOverdue now)
          (sv.users.get i w.users)
          (sv.users.get i (cleanup_unverified_users sv now w).1.users)
        × Loses
            (λ a. OfOverdue a.user_id)
            (sv.links.get j w.links)
            (sv.links.get j (cleanup_unverified_users sv now w).1.links)
        × Loses
            (λ f. OfOverdue f.user_id)
            (sv.files.get k w.files)
            (sv.files.get k (cleanup_unverified_users sv now w).1.files)
  cleanup_unverified_users_effect i j k =
      let (users, links, files) = rows_after sv now i j k w in
      let stale = sv.users.scalars (is_stale now) w.users in
      (
        unless-Loses sv.users (is_stale now) (IsOverdue now) (is_stale-IsOverdue now)
            (IsOverdue-is_stale now) (sv.users.get i w.users) users,
        unless-Loses sv.links (λ a. owned_by sv stale a.user_id) (λ a. OfOverdue a.user_id)
            (λ a. stale_users_own a.user_id) (λ a. own_stale_users a.user_id)
            (sv.links.get j w.links) links,
        unless-Loses sv.files (λ f. owned_by sv stale f.user_id) (λ f. OfOverdue f.user_id)
            (λ f. stale_users_own f.user_id) (λ f. own_stale_users f.user_id)
            (sv.files.get k w.files) files,
      )
