-- ===== src/Pagination/Feed.antt =====
-- `paginate_cursor`: what a client gets that follows the cursors from page to page.
use mathlib.Core.List.Permᴰ
use fastapi_auth_api.Base.{
  ℕ, ◌<◌, ◌≡◌, refl, Bool, true, false, ◌&&◌, Option, none, some, List, arith, take, drop, ltb,
  ltb→lt, lt→ltb,
}
use fastapi_auth_api.Services.Table.{Table, Occurs}
use fastapi_auth_api.Services.Table.Ordering.{
  by_key, by_key-IsOrder, Ascending, Ascending-of_sorted, Ascending-unique, Occurs-Permᴰ,
  DistinctKeys-Permᴰ, All-Occurs,
}
use fastapi_auth_api.Pagination.{last_of}
use fastapi_auth_api.Pagination.Rows.{
  Ascending-drop, Occurs-drop, last_below, above_last, last_Occurs,
}

module _ {Row : Type 0} {key : Row → ℕ} (table : Table Row key) (s : table.State) where
  abbrev pub by_id : (Row → Bool) → List Row
  by_id p = table.order_by (by_key key) (table.scalars p s)

  -- A row that the table holds and the condition selects.
  abbrev pub Selected : (Row → Bool) → Row → Type 0
  Selected p r = (p r ≡ true) × (table.get (key r) s ≡ some r)

  pub by_id-Ascending : (p : Row → Bool) → Ascending key (by_id p)
  by_id-Ascending p =
      let same = table.order_by_same_rows (by_key key) (table.scalars p s) in
      Ascending-of_sorted key (by_id p)
        (table.order_by_sorted (by_key key) (table.scalars p s) (by_key-IsOrder key))
        (DistinctKeys-Permᴰ key same (table.scalars_distinct p s))

  pub by_id-Selected : (p : Row → Bool) (r : Row) → Occurs r (by_id p) → Selected p r
  by_id-Selected p r o =
      All-Occurs (Selected p) (table.scalars p s) (table.scalars_sound p s) r
        (Occurs-Permᴰ (table.order_by_same_rows (by_key key) (table.scalars p s)) r o)

  pub by_id-Occurs : (p : Row → Bool) (r : Row) → Selected p r → Occurs r (by_id p)
  by_id-Occurs p r (holds, stored) =
      Occurs-Permᴰ (Permᴰ.symm (table.order_by_same_rows (by_key key) (table.scalars p s))) r
        (table.scalars_complete p (key r) r s stored holds)

  both_true : (a b : Bool) → (a && b) ≡ true → (a ≡ true) × (b ≡ true)
  both_true true b h = (refl, h)
  both_true false b h = absurd (ground arith)

  -- The selected rows by ascending ids are the only such list.
  by_id_same :
      (q : Row → Bool) (xs : List Row)
      → Ascending key xs
      → ((r : Row) → Selected q r → Occurs r xs)
      → ((r : Row) → Occurs r xs → Selected q r)
      → by_id q ≡ xs
  by_id_same q xs a to from =
      Ascending-unique key (by_id q) xs (by_id-Ascending q) a (λ r o. to r (by_id-Selected q r o))
        (λ r o. by_id-Occurs q r (from r o))

  module _ (p : Row → Bool) where
    -- The condition of the page after an id, or of the first page.
    abbrev pub after_id : Option ℕ → Row → Bool
    after_id none r = p r
    after_id (some k) r = p r && ltb k (key r)

    after_id_holds : (b : Option ℕ) (r : Row) → after_id b r ≡ true → p r ≡ true
    after_id_holds none r h = h
    after_id_holds (some k) r h = (both_true (p r) (ltb k (key r)) h).0

    after_id_above :
        (b : Option ℕ) (x r : Row)
        → after_id b x ≡ true
        → key x < key r
        → p r ≡ true
        → after_id b r ≡ true
    after_id_above none x r h lt holds = holds
    after_id_above (some k) x r h lt holds =
        let above = ltb→lt k (key x) (both_true (p x) (ltb k (key x)) h).1 in
        rw (holds, lt→ltb k (key r) (omega arith)) refl

    -- What has a greater id than the last row of the first `n` is the rest of the list.
    pub by_id_later :
        (b : Option ℕ) (n : ℕ) (x : Row)
        → last_of (take n (by_id (after_id b))) ≡ some x
        → by_id (after_id (some (key x))) ≡ drop n (by_id (after_id b))
    by_id_later b n x h =
        let xs = by_id (after_id b) in
        let a = by_id-Ascending (after_id b) in
        let sel_x = by_id-Selected (after_id b) x (last_Occurs key x n xs h) in
        by_id_same (after_id (some (key x))) (drop n xs) (Ascending-drop key n xs a)
          (λ r sel.
            let (holds, above) = both_true (p r) (ltb (key x) (key r)) sel.0 in
            let lt = ltb→lt (key x) (key r) above in
            above_last key x n xs r a h lt
              (by_id-Occurs (after_id b) r (after_id_above b x r sel_x.0 lt holds, sel.1)))
          (λ r o.
            let (holds, stored) = by_id-Selected (after_id b) r (Occurs-drop key n xs r o) in
            (
              rw (after_id_holds b r holds, lt→ltb (key x) (key r) (last_below key x n xs r a h o))
                  refl,
              stored,
            ))
