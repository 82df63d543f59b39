-- ===== src/Memory/Rows.antt =====
-- A table as a list of rows with distinct keys.
use fastapi_auth_api.Base.{
  ℕ, ◌<◌, ◌≡◌, refl, Bool, false, inl, inr, Option, none, some, List, [], ◌∷◌, arith, if◌then◌else◌,
  ◌==◌,
}
use Prim.Native.Nat.{max}
use fastapi_auth_api.Services.Table.{Occurs, Absent, DistinctKeys}

module _ {Row : Type 0} (key : Row → ℕ) where
  abbrev pub find : ℕ → List Row → Option Row
  find i [] = none
  find i (r ∷ rs) = if i == key r then some r else find i rs

  abbrev pub search : (Row → Bool) → List Row → Option Row
  search p [] = none
  search p (r ∷ rs) = if p r then some r else search p rs

  abbrev pub upsert : Row → List Row → List Row
  upsert r [] = r ∷ []
  upsert r (x ∷ xs) = if key r == key x then r ∷ xs else x ∷ upsert r xs

  abbrev pub remove : ℕ → List Row → List Row
  remove k [] = []
  remove k (r ∷ rs) = if k == key r then rs else r ∷ remove k rs

  abbrev pub largest : List Row → ℕ
  largest [] = 0
  largest (r ∷ rs) = max (key r) (largest rs)

  Absent-upsert :
      (k : ℕ) (r : Row) (rs : List Row)
      → (k == key r) ≡ false
      → Absent key k rs
      → Absent key k (upsert r rs)
  Absent-upsert k r [] h a = (h, tt)
  Absent-upsert k r (x ∷ xs) h a = ground (arith, Absent-upsert k r xs h a.1)

  Absent-remove : (k j : ℕ) (rs : List Row) → Absent key k rs → Absent key k (remove j rs)
  Absent-remove k j [] a = tt
  Absent-remove k j (x ∷ xs) a = ground (arith, Absent-remove k j xs a.1)

  Absent-same : (k j : ℕ) (rs : List Row) → k ≡ j → Absent key k rs → Absent key j rs
  Absent-same k j rs e a = rw (← e) a

  pub DistinctKeys-upsert :
      (r : Row) (rs : List Row) → DistinctKeys key rs → DistinctKeys key (upsert r rs)
  DistinctKeys-upsert r [] d = (tt, tt)
  DistinctKeys-upsert r (x ∷ xs) d = ground (
    arith,
    DistinctKeys-upsert r xs d.1,
    Absent-upsert (key x) r xs,
    Absent-same (key x) (key r) xs,
  )

  pub DistinctKeys-remove :
      (k : ℕ) (rs : List Row) → DistinctKeys key rs → DistinctKeys key (remove k rs)
  DistinctKeys-remove k [] d = tt
  DistinctKeys-remove k (x ∷ xs) d =
      ground (arith, DistinctKeys-remove k xs d.1, Absent-remove (key x) k xs)

  pub find_key : (i : ℕ) (r : Row) (rs : List Row) → find i rs ≡ some r → key r ≡ i
  find_key i r [] h = cc
  find_key i r (x ∷ xs) h = ground (arith, find_key i r xs)

  pub find-upsert :
      (i : ℕ) (r : Row) (rs : List Row)
      → find i (upsert r rs) ≡ (if i == key r then some r else find i rs)
  find-upsert i r [] = refl
  find-upsert i r (x ∷ xs) = ground (arith, find-upsert i r xs)

  find-Absent : (i : ℕ) (rs : List Row) → Absent key i rs → find i rs ≡ none
  find-Absent i [] a = refl
  find-Absent i (x ∷ xs) a = ground (arith, find-Absent i xs a.1)

  pub find-remove :
      (i k : ℕ) (rs : List Row)
      → DistinctKeys key rs
      → find i (remove k rs) ≡ (if i == k then none else find i rs)
  find-remove i k [] d = ground arith
  find-remove i k (x ∷ xs) d =
      ground (arith, find-remove i k xs d.1, find-Absent i xs, Absent-same (key x) i xs)

  pub find_above : (i : ℕ) (rs : List Row) → largest rs < i → find i rs ≡ none
  find_above i [] h = refl
  find_above i (x ∷ xs) h = ground (arith, find_above i xs)

  -- A row of the list is what its key finds, when the keys are distinct.
  pub find_occurring :
      (r : Row) (rs : List Row) → DistinctKeys key rs → Occurs r rs → find (key r) rs ≡ some r
  find_occurring r [] d o = absurd o
  find_occurring r (x ∷ xs) d (inl e) = rw e (ground arith)
  find_occurring r (x ∷ xs) d (inr o) =
      let ih = find_occurring r xs d.1 o in
      ground (arith, ih, find-Absent (key r) xs, Absent-same (key x) (key r) xs)
