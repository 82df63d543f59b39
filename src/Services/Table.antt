-- ===== src/Services/Table.antt =====
-- A table of the database behind a SQLAlchemy session, for rows with an integer primary key.
-- Every write of the program is committed at once, so a state is the committed contents.
pub mod Deletion
pub mod Ordering
use mathlib.Core.List.{Permᴰ}
use fastapi_auth_api.Base.{
  ℕ, ◌≡◌, Bool, true, false, ◌⊎◌, Option, none, some, List, [], ◌∷◌, if◌then◌else◌, ◌==◌, All,
}

-- The row stands in the list.
abbrev pub Occurs : {A : Type 0} → A → List A → Type 0
Occurs x [] = ⊥
Occurs x (y ∷ ys) = (x ≡ y) ⊎ Occurs x ys

module _ {Row : Type 0} (stands_before : Row → Row → Bool) where
  -- The test of an ORDER BY clause: of two rows, may the first stand before the second?
  pub record IsOrder : Type 0 where
    pub total : (a b : Row) → stands_before a b ≡ false → stands_before b a ≡ true
    pub transitive :
        (a b c : Row)
        → stands_before a b ≡ true
        → stands_before b c ≡ true
        → stands_before a c ≡ true

  -- Every row may stand before all that follow.
  abbrev pub IsSorted : List Row → Type 0
  IsSorted [] = Unit
  IsSorted (r ∷ rs) = All (λ x. stands_before r x ≡ true) rs × IsSorted rs

module _ {Row : Type 0} (key : Row → ℕ) where
  abbrev pub Absent : ℕ → List Row → Type 0
  Absent k rs = All (λ r. (k == key r) ≡ false) rs

  -- No two rows of the list have one key.
  abbrev pub DistinctKeys : List Row → Type 0
  DistinctKeys [] = Unit
  DistinctKeys (r ∷ rs) = Absent (key r) rs × DistinctKeys rs

pub record Table (Row : Type 0) (key : Row → ℕ) : Type 1 where
  pub State : Type 0
  -- `db.get(Model, id)`
  pub get : ℕ → State → Option Row
  -- `db.scalar(select(Model).where(...))`
  pub scalar : (Row → Bool) → State → Option Row
  -- `db.scalars(select(Model).where(...))`
  pub scalars : (Row → Bool) → State → List Row
  -- `.order_by(...)`, of selected rows no two of which tie in that order
  pub order_by : (Row → Row → Bool) → List Row → List Row
  -- the key that the database gives to the next new row
  pub next_id : State → ℕ
  -- `db.add(row); db.commit()`, for a new row and for a changed one
  pub save : Row → State → State
  -- `db.delete(row); db.commit()`
  pub delete : ℕ → State → State
  pub get_key : (i : ℕ) (r : Row) (s : State) → get i s ≡ some r → key r ≡ i
  pub get-save :
      (i : ℕ) (r : Row) (s : State) → get i (save r s) ≡ (if i == key r then some r else get i s)
  pub get-delete : (i k : ℕ) (s : State) → get i (delete k s) ≡ (if i == k then none else get i s)
  pub next_id_fresh : (s : State) → get (next_id s) s ≡ none
  pub scalar_sound :
      (p : Row → Bool) (r : Row) (s : State)
      → scalar p s ≡ some r
      → (p r ≡ true) × (get (key r) s ≡ some r)
  pub scalar_none :
      (p : Row → Bool) (i : ℕ) (r : Row) (s : State)
      → scalar p s ≡ none
      → get i s ≡ some r
      → p r ≡ false
  pub scalars_sound :
      (p : Row → Bool) (s : State)
      → All (λ r. (p r ≡ true) × (get (key r) s ≡ some r)) (scalars p s)
  pub scalars_complete :
      (p : Row → Bool) (i : ℕ) (r : Row) (s : State)
      → get i s ≡ some r
      → p r ≡ true
      → Occurs r (scalars p s)
  pub scalars_distinct : (p : Row → Bool) (s : State) → DistinctKeys key (scalars p s)
  pub order_by_sorted :
      (stands_before : Row → Row → Bool) (rs : List Row)
      → IsOrder stands_before
      → IsSorted stands_before (order_by stands_before rs)
  pub order_by_same_rows :
      (stands_before : Row → Row → Bool) (rs : List Row) → Permᴰ (order_by stands_before rs) rs
