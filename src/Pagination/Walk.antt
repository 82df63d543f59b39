-- ===== src/Pagination/Walk.antt =====
-- `paginate_cursor`: what a client gets that follows the cursors from page to page.
use mathlib.Core.Option
use native.Mathlib.Numerals.{add-one}
use fastapi_auth_api.Base.{
  ℕ, zero, suc, ◌+◌, ◌≤◌, ◌<◌, ◌≡◌, refl, ap, inl, inr, Bool, true, false, String, Option, none,
  some, List, ◌++◌, arith, length, take, ltb, length-take, length-drop, Bool-cases, ltb→lt, lt→ltb,
  le→ltb,
}
use fastapi_auth_api.Services.Runtime.{Runtime}
use fastapi_auth_api.Services.Table.{Table, Occurs}
use fastapi_auth_api.Services.Table.Ordering.{by_key, Ascending, length-Permᴰ}
use fastapi_auth_api.Pagination.{
  CursorPage, CursorPaginationParams, from_cursor, cut, last_of, paginate_cursor, encode_cursor,
  select_where,
}
use fastapi_auth_api.Pagination.Cursor.{decode_cursor-encode_cursor}
use fastapi_auth_api.Pagination.Rows.{take-take_longer, take_all, take-append-drop, last_of-some}
use fastapi_auth_api.Pagination.Feed.{
  by_id, Selected, by_id-Ascending, by_id-Selected, by_id-Occurs, after_id, by_id_later,
}

module _ (runtime : Runtime) {Row : Type 0} {key : Row → ℕ} (table : Table Row key) where
  cut_last :
      (limit : ℕ) (xs : List Row)
      → length xs ≤ limit
      → cut runtime table limit (take (suc limit) xs)
        ≡ some (record { items = xs; next_cursor = none; has_more = false })
  cut_last limit xs h =
      rw (take_all (suc limit) xs (omega arith), le→ltb limit (length xs) h, take_all limit xs h)
        refl

  cut_more :
      (limit : ℕ) (xs : List Row) (x : Row) (cursor : String)
      → limit < length xs
      → last_of (take limit xs) ≡ some x
      → encode_cursor runtime (key x) ≡ some cursor
      → cut runtime table limit (take (suc limit) xs)
        ≡ some (record { items = take limit xs; next_cursor = some cursor; has_more = true })
  cut_more limit xs x cursor h last encoded =
      let long : limit < length (take (suc limit) xs) = omega (arith, length-take (suc limit) xs) in
      rw
        (take-take_longer limit xs, lt→ltb limit (length (take (suc limit) xs)) long, last, encoded)
        refl

  module _ (s : table.State) (p : Row → Bool) (params : CursorPaginationParams) where
    abbrev pub page_after : Option String → Option (CursorPage Row)
    page_after cursor =
        paginate_cursor runtime table (select_where p) (record params { cursor = cursor }) s

    abbrev pub follow : (String → Option (List Row)) → Option (CursorPage Row) → Option (List Row)
    follow next none = none
    follow next (some page) = elim page.next_cursor [
      | none ↦ some page.items
      | some cursor ↦ Option.map (λ rest. page.items ++ rest) (next cursor)
    ]

    -- A client that asks for at most so many pages: the items of all pages, if the last has no
    -- next cursor.
    unfoldable pub walk : ℕ → Option String → Option (List Row)
    walk zero cursor = none
    walk (suc pages) cursor = follow (λ next. walk pages (some next)) (page_after cursor)

    -- The cursor stands for the id after which the page begins.
    abbrev StandsFor : Option String → Option ℕ → Type 0
    StandsFor cursor b =
        from_cursor runtime table cursor (select_where p)
        ≡ some (select_where (after_id table s p b))

    page_rows :
        (cursor : Option String) (b : Option ℕ)
        → StandsFor cursor b
        → page_after cursor
          ≡ cut runtime table params.limit
              (take (params.limit + 1) (by_id table s (after_id table s p b)))
    unfolding paginate_cursor
    page_rows cursor b h = rw h refl

    walk_from :
        (pages : ℕ) (cursor : Option String) (b : Option ℕ)
        → 1 ≤ params.limit
        → StandsFor cursor b
        → length (by_id table s (after_id table s p b)) < pages
        → walk pages cursor ≡ some (by_id table s (after_id table s p b))
    unfolding walk
    walk_from zero cursor b positive stands enough = absurd (omega arith)
    walk_from (suc pages) cursor b positive stands enough =
        let xs = by_id table s (after_id table s p b) in
        let page = page_rows cursor b stands in
        elim (Bool-cases (ltb params.limit (length xs))) [
          | inr last ↦ rw (page, add-one, cut_last params.limit xs (ground arith)) refl
          | inl more ↦
              let long = ltb→lt params.limit (length xs) more in
              let (x, found) = last_of-some params.limit xs positive (omega arith) in
              let (next, encoded, decoded) = decode_cursor-encode_cursor runtime (key x) in
              let rest = by_id_later table s p b params.limit x found in
              let stands' : StandsFor (some next) (some (key x)) = rw decoded refl in
              let shorter : length (by_id table s (after_id table s p (some (key x)))) < pages =
                rw rest (omega (arith, length-drop params.limit xs)) in
              let tail = walk_from pages (some next) (some (key x)) positive stands' shorter in
              rw (page, add-one, cut_more params.limit xs x next long found encoded, tail, rest)
                (ap some (take-append-drop params.limit xs))
        ]

    -- Following the cursors from the first page, with pages of at least one row, ends after at
    -- most one page more than there are selected rows; the pages together are the selected rows,
    -- each once, by ascending ids.
    pub walk_lists_all :
        (pages : ℕ)
        → 1 ≤ params.limit
        → length (table.scalars p s) < pages
        → (rows : List Row) × (walk pages none ≡ some rows)
          × Ascending key rows
          × ((r : Row) → Occurs r rows → Selected table s p r)
          × ((r : Row) → Selected table s p r → Occurs r rows)
    walk_lists_all pages positive enough =
        let same = length-Permᴰ (table.order_by_same_rows (by_key key) (table.scalars p s)) in
        (
          by_id table s p,
          walk_from pages none none positive refl (omega arith),
          by_id-Ascending table s p,
          by_id-Selected table s p,
          by_id-Occurs table s p,
        )
