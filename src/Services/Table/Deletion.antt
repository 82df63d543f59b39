-- ===== src/Services/Table/Deletion.antt =====
-- Deleting rows: `for row in rows: db.delete(row)`, for the rows of a query.
use fastapi_auth_api.Base.{
  ℕ, ◌≡◌, refl, ap, ◌∙◌, subst, Bool, true, false, inl, inr, Option, none, some, List, [], ◌∷◌,
  arith, if◌then◌else◌, ◌==◌, ==_iff, Option-cases, Bool-cases, All,
}
use fastapi_auth_api.Services.Table.{Table, Occurs}

module _ {Row : Type 0} {key : Row → ℕ} (t : Table Row key) where
  unfoldable pub delete_all : List Row → t.State → t.State
  delete_all [] s = s
  delete_all (r ∷ rs) s = delete_all rs (t.delete (key r) s)

  unfoldable pub delete_where : (Row → Bool) → t.State → t.State
  unfolding delete_all
  delete_where p s = delete_all (t.scalars p s) s

  still_gone :
      (i : ℕ) (rs : List Row) (s : t.State) → t.get i s ≡ none → t.get i (delete_all rs s) ≡ none
  unfolding delete_all
  still_gone i [] s h = h
  still_gone i (r ∷ rs) s h =
      still_gone i rs (t.delete (key r) s) (ground (arith, h, t.get-delete i (key r) s))

  deleted :
      (r : Row) (rs : List Row) (s : t.State) → Occurs r rs → t.get (key r) (delete_all rs s) ≡ none
  unfolding delete_all
  deleted r [] s h = absurd h
  deleted r (x ∷ rs) s (inl e) =
      still_gone (key r) rs (t.delete (key x) s)
        (ground (arith, ap key e, t.get-delete (key r) (key x) s, ==_iff (key r) (key x)))
  deleted r (x ∷ rs) s (inr h) = deleted r rs (t.delete (key x) s) h

  spared :
      (i : ℕ) (rs : List Row) (s : t.State)
      → All (λ r. (i == key r) ≡ false) rs
      → t.get i (delete_all rs s) ≡ t.get i s
  unfolding delete_all
  spared i [] s h = refl
  spared i (r ∷ rs) s h =
      spared i rs (t.delete (key r) s) h.1 ∙ ground (arith, h.0, t.get-delete i (key r) s)

  other_keys :
      (p : Row → Bool) (i : ℕ) (rs : List Row) (s : t.State)
      → ((r : Row) → t.get i s ≡ some r → p r ≡ false)
      → All (λ r. (p r ≡ true) × (t.get (key r) s ≡ some r)) rs
      → All (λ r. (i == key r) ≡ false) rs
  other_keys p i [] s fresh h = tt
  other_keys p i (r ∷ rs) s fresh h = (
    elim (Bool-cases (i == key r)) [
      | inl e ↦
          let same : i ≡ key r = (==_iff i (key r)).0 e in
          let row : t.get i s ≡ some r = ap (λ k. t.get k s) same ∙ h.0.1 in
          absurd (ground (arith, h.0.0, fresh r row))
      | inr e ↦ e
    ],
    other_keys p i rs s fresh h.1,
  )

  -- What a deletion leaves of the row of a key.
  abbrev pub unless : (Row → Bool) → Option Row → Option Row
  unless p none = none
  unless p (some r) = if p r then none else some r

  -- Exactly the rows of the query go.
  pub get-delete_where :
      (p : Row → Bool) (i : ℕ) (s : t.State) → t.get i (delete_where p s) ≡ unless p (t.get i s)
  unfolding delete_where
  get-delete_where p i s = elim (Option-cases (t.get i s)) [
    | inl e ↦ ground (arith, e, still_gone i (t.scalars p s) s e)
    | inr (r, e) ↦ elim (Bool-cases (p r)) [
      | inl f ↦
          let gone = deleted r (t.scalars p s) s (t.scalars_complete p i r s e f) in
          let row : t.get i (delete_all (t.scalars p s) s) ≡ none =
            subst (λ k. t.get k (delete_all (t.scalars p s) s) ≡ none) (t.get_key i r s e) gone in
          ground (arith, e, f, row)
      | inr f ↦
          let apart =
            other_keys p i (t.scalars p s) s (λ v g. ground (arith, e, f, g))
              (t.scalars_sound p s) in
          ground (arith, e, f, spared i (t.scalars p s) s apart)
    ]
  ]
