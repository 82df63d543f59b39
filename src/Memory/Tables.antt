-- ===== src/Memory/Tables.antt =====
-- The table interface, filled by lists of rows with distinct keys.
use fastapi_auth_api.Base.{
  ℕ, suc, ◌≡◌, refl, Bool, true, false, inl, inr, none, some, List, [], ◌∷◌, arith, All, Bool-cases,
  keep,
}
use fastapi_auth_api.Services.Table.{Table, Occurs, Absent, DistinctKeys}
use fastapi_auth_api.Memory.Sorting.{insertion_sort, insertion_sort-IsSorted, insertion_sort-Permᴰ}
use fastapi_auth_api.Memory.Rows.{
  find, search, upsert, remove, largest, DistinctKeys-upsert, DistinctKeys-remove, find_key,
  find-upsert, find-remove, find_above, find_occurring,
}

module _ {Row : Type 0} (key : Row → ℕ) where
  search-Occurs :
      (p : Row → Bool) (r : Row) (rs : List Row)
      → search key p rs ≡ some r
      → (p r ≡ true) × Occurs r rs
  search-Occurs p r [] h = absurd (ground arith)
  search-Occurs p r (x ∷ xs) h = elim (Bool-cases (p x)) [
    | inl e ↦ let same : x ≡ r = ground arith in rw (← same) (e, inl refl)
    | inr e ↦ let (holds, later) = search-Occurs p r xs (ground arith) in (holds, inr later)
  ]

  pub search-none :
      (p : Row → Bool) (i : ℕ) (r : Row) (rs : List Row)
      → search key p rs ≡ none
      → find key i rs ≡ some r
      → p r ≡ false
  search-none p i r [] h f = cc
  search-none p i r (x ∷ xs) h f = ground (arith, search-none p i r xs)

  pub keep_complete :
      (p : Row → Bool) (i : ℕ) (r : Row) (rs : List Row)
      → find key i rs ≡ some r
      → p r ≡ true
      → Occurs r (keep p rs)
  keep_complete p i r [] f h = absurd (ground arith)
  keep_complete p i r (x ∷ xs) f h = ground (arith, keep_complete p i r xs)

  pub keep_sound :
      (p : Row → Bool) (rs all : List Row)
      → ((r : Row) → Occurs r rs → find key (key r) all ≡ some r)
      → All (λ r. (p r ≡ true) × (find key (key r) all ≡ some r)) (keep p rs)
  keep_sound p [] all h = tt
  keep_sound p (x ∷ xs) all h = elim (Bool-cases (p x)) [
    | inl e ↦ rw e ((e, h x (inl refl)), keep_sound p xs all (λ r o. h r (inr o)))
    | inr e ↦ rw e (keep_sound p xs all (λ r o. h r (inr o)))
  ]

  Absent-keep :
      (p : Row → Bool) (k : ℕ) (rs : List Row) → Absent key k rs → Absent key k (keep p rs)
  Absent-keep p k [] a = tt
  Absent-keep p k (x ∷ xs) a = ground (arith, Absent-keep p k xs a.1)

  pub DistinctKeys-keep :
      (p : Row → Bool) (rs : List Row) → DistinctKeys key rs → DistinctKeys key (keep p rs)
  DistinctKeys-keep p [] d = tt
  DistinctKeys-keep p (x ∷ xs) d =
      ground (arith, DistinctKeys-keep p xs d.1, Absent-keep p (key x) xs)

  abbrev pub Rows : Type 0
  Rows = (rows : List Row) × DistinctKeys key rows

  pub scalar_sound :
      (p : Row → Bool) (r : Row) (s : Rows)
      → search key p s.0 ≡ some r
      → (p r ≡ true) × (find key (key r) s.0 ≡ some r)
  scalar_sound p r s h =
      let (holds, o) = search-Occurs p r s.0 h in (holds, find_occurring key r s.0 s.1 o)

  abbrev pub memory_table : Table Row key
  memory_table = record {
    State = Rows;
    get = λ i s. find key i s.0;
    scalar = λ p s. search key p s.0;
    scalars = λ p s. keep p s.0;
    order_by = insertion_sort;
    next_id = λ s. suc (largest key s.0);
    save = λ r s. (upsert key r s.0, DistinctKeys-upsert key r s.0 s.1);
    delete = λ k s. (remove key k s.0, DistinctKeys-remove key k s.0 s.1);
    get_key = λ i r s. find_key key i r s.0;
    get-save = λ i r s. find-upsert key i r s.0;
    get-delete = λ i k s. find-remove key i k s.0 s.1;
    next_id_fresh = λ s. find_above key (suc (largest key s.0)) s.0 (omega arith);
    scalar_sound = scalar_sound;
    scalar_none = λ p i r s. search-none p i r s.0;
    scalars_sound = λ p s. keep_sound p s.0 s.0 (λ r. find_occurring key r s.0 s.1);
    scalars_complete = λ p i r s. keep_complete p i r s.0;
    scalars_distinct = λ p s. DistinctKeys-keep p s.0 s.1;
    order_by_sorted = λ le rs o. insertion_sort-IsSorted le o rs;
    order_by_same_rows = insertion_sort-Permᴰ;
  }
