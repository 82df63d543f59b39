-- ===== src/Pagination/Offset.antt =====
-- `paginate_offset`: what a client gets that moves the offset on while there is more.
use mathlib.Core.Option
use mathlib.Core.List.{append-nil, Permᴰ}
use mathlib.Core.List.Permᴰ
use fastapi_auth_api.Base.{
  ℕ, zero, suc, ◌+◌, ◌-◌, ◌≤◌, ◌<◌, ◌≡◌, ap, inl, inr, Bool, true, false, Option, none, some, List,
  [], ◌++◌, arith, length, take, drop, ltb, length-take, length-drop, Bool-cases, ltb→lt, min,
}
use fastapi_auth_api.Services.Table.{Table, Occurs, DistinctKeys, IsOrder}
use fastapi_auth_api.Services.Table.Ordering.{
  length-Permᴰ, Occurs-Permᴰ, All-Occurs, DistinctKeys-Permᴰ, IsSorted-unique,
}
use fastapi_auth_api.Pagination.{
  Select, Page, OffsetPaginationParams, paginate_offset, Arrangement, arranged,
}
use fastapi_auth_api.Pagination.Rows.{take_all, take-append-drop, drop-drop}

module _ {Row : Type 0} {key : Row → ℕ} (table : Table Row key) (s : table.State) where
  -- A row that the table holds and the statement selects.
  abbrev pub IsFound : Select Row → Row → Type 0
  IsFound statement r = (statement.condition r ≡ true) × (table.get (key r) s ≡ some r)

  abbrev order_of : Select Row → Row → Row → Bool
  order_of statement = Option.get_or statement.order (λ a b. true)

  -- No two of the selected rows tie in the order of the statement.
  abbrev pub NoTies : Select Row → Type 0
  NoTies statement =
      (a b : Row)
      → IsFound statement a
      → IsFound statement b
      → order_of statement a b ≡ true
      → order_of statement b a ≡ true
      → a ≡ b

  arranged_same :
      (x : Arrangement Row) (statement : Select Row)
      → Permᴰ (arranged table x statement s) (table.scalars statement.condition s)
  arranged_same x statement =
      x.arrange_same_rows (order_of statement) (table.scalars statement.condition s)

  pub arranged-IsFound :
      (x : Arrangement Row) (statement : Select Row) (r : Row)
      → Occurs r (arranged table x statement s)
      → IsFound statement r
  arranged-IsFound x statement r o =
      All-Occurs (IsFound statement) (table.scalars statement.condition s)
        (table.scalars_sound statement.condition s) r (Occurs-Permᴰ (arranged_same x statement) r o)

  pub IsFound-arranged :
      (x : Arrangement Row) (statement : Select Row) (r : Row)
      → IsFound statement r
      → Occurs r (arranged table x statement s)
  IsFound-arranged x statement r (holds, stored) =
      Occurs-Permᴰ (Permᴰ.symm (arranged_same x statement)) r
        (table.scalars_complete statement.condition (key r) r s stored holds)

  pub DistinctKeys-arranged :
      (x : Arrangement Row) (statement : Select Row)
      → DistinctKeys key (arranged table x statement s)
  DistinctKeys-arranged x statement =
      DistinctKeys-Permᴰ key (arranged_same x statement)
        (table.scalars_distinct statement.condition s)

  pub length-arranged :
      (x : Arrangement Row) (statement : Select Row)
      → length (arranged table x statement s) ≡ length (table.scalars statement.condition s)
  length-arranged x statement = length-Permᴰ (arranged_same x statement)

  -- Without ties all arrangements are the same.
  pub arranged_once :
      (x y : Arrangement Row) (statement : Select Row)
      → IsOrder (order_of statement)
      → NoTies statement
      → arranged table x statement s ≡ arranged table y statement s
  arranged_once x y statement order no_ties =
      let found = table.scalars statement.condition s in
      IsSorted-unique key (order_of statement) (IsFound statement) no_ties
        (arranged table x statement s) (arranged table y statement s)
        (x.arrange_sorted (order_of statement) found order)
        (y.arrange_sorted (order_of statement) found order) (DistinctKeys-arranged x statement)
        (DistinctKeys-arranged y statement) (arranged-IsFound x statement)
        (λ r o. IsFound-arranged y statement r (arranged-IsFound x statement r o))
        (λ r o. IsFound-arranged x statement r (arranged-IsFound y statement r o))

  -- `arrangements` has the arrangement of the request at each offset.
  module _ (arrangements : ℕ → Arrangement Row) (statement : Select Row)
      (params : OffsetPaginationParams) where
    abbrev pub page_at : ℕ → Page Row
    unfolding paginate_offset
    page_at offset =
        paginate_offset table (arrangements offset) statement (record params { offset = offset }) s

    abbrev more_of : Bool → Option (List Row) → Option (List Row)
    more_of true rest = rest
    more_of false rest = some []

    -- A client that asks for at most so many pages: their items, if the last has no more.
    unfoldable pub walk : ℕ → ℕ → Option (List Row)
    unfolding paginate_offset
    walk zero offset = none
    walk (suc pages) offset =
        Option.map (λ rest. (page_at offset).items ++ rest)
          (more_of (page_at offset).has_more (walk pages (offset + params.limit)))

    module _ (rows : List Row)
        (same : (offset : ℕ) → arranged table (arrangements offset) statement s ≡ rows)
        (total : length rows ≡ length (table.scalars statement.condition s)) where
      walk_from :
          (pages offset : ℕ)
          → 1 ≤ params.limit
          → length rows - offset < pages
          → walk pages offset ≡ some (drop offset rows)
      unfolding walk paginate_offset
      walk_from zero offset positive enough = absurd (omega arith)
      walk_from (suc pages) offset positive enough =
          let here = drop offset rows in
          let shown : length (take params.limit here) ≡ min params.limit (length rows - offset) =
            omega (arith, length-take params.limit here, length-drop offset rows) in
          elim (Bool-cases (
            ltb (offset + length (take params.limit here))
              (length (table.scalars statement.condition s)))) [
                | inl more ↦
                    let lt = ltb→lt _ _ more in
                    let tail = walk_from pages (offset + params.limit) positive (omega arith) in
                    rw (same offset, more, tail, drop-drop offset params.limit rows)
                      (ap some (take-append-drop params.limit here))
                | inr last ↦
                    let ge : length (table.scalars statement.condition s)
                        ≤ offset + length (take params.limit here) =
                      ground arith in
                    rw (same offset, last, append-nil)
                      (ap some
                        (take_all params.limit here (omega (arith, length-drop offset rows))))
              ]

    -- Where no two of the selected rows tie, moving the offset on by the limit while there is
    -- more, from the first page, ends after at most one page more than there are selected rows;
    -- the pages together are all these rows in the requested order.
    pub pages_list_all :
        (pages : ℕ)
        → IsOrder (order_of statement)
        → NoTies statement
        → 1 ≤ params.limit
        → length (table.scalars statement.condition s) < pages
        → walk pages 0 ≡ some (arranged table (arrangements 0) statement s)
    pages_list_all pages order no_ties positive enough =
        let total = length-arranged (arrangements 0) statement in
        walk_from (arranged table (arrangements 0) statement s)
          (λ offset. arranged_once (arrangements offset) (arrangements 0) statement order no_ties)
          total pages 0 positive (omega arith)
