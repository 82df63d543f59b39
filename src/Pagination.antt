-- ===== src/Pagination.antt =====
-- app/services/pagination.py and app/schemas/pagination.py: pages of a listing, by offset or by
-- cursor.
pub mod Cursor
pub mod Offset
pub mod Rows
pub mod Feed
pub mod Walk
use Prim.Native.String.{◌++◌ as ◌&◌}
use mathlib.Core.Option
use fastapi_auth_api.Base.{
  ℕ, ◌+◌, String, Bool, true, false, ◌&&◌, ◌||◌, Option, none, some, ℤ, pos, negsuc, List, [], ◌∷◌,
  if◌then◌else◌, ltb, leb, length, take, drop, any, contains, str_eq,
}
use fastapi_auth_api.Services.Runtime.{Runtime}
use mathlib.Core.List.{Permᴰ}
use fastapi_auth_api.Services.Table.{Table, IsOrder, IsSorted}
use fastapi_auth_api.Services.Table.Ordering.{by_key}
use fastapi_auth_api.Codec.Base64.{urlsafe_b64encode, urlsafe_b64decode}
use fastapi_auth_api.Codec.Utf8.{encode, decode}

-- `Literal["asc", "desc"]`
pub data Order : Type 0 where
  asc desc : Order

-- How the database compares texts: `ORDER BY` of a text column, and `ILIKE` of a value and a pattern.
pub record Collation : Type 0 where
  pub text_before : String → String → Bool
  pub ilike : String → String → Bool

pub record OffsetPaginationParams : Type 0 where
  pub limit : ℕ
  pub offset : ℕ
  pub sort : Option String
  pub order : Order
  pub q : Option String

pub record CursorPaginationParams : Type 0 where
  pub cursor : Option String
  pub limit : ℕ
  pub q : Option String

-- `Query(20, ge=1, le=100)`: a parameter that is not given, and one out of its bounds (`none`).
unfoldable pub page_size : Option ℕ → Option ℕ
page_size none = some 20
page_size (some n) = if leb 1 n && leb n 100 then some n else none

unfoldable pub get_offset_pagination :
    Option ℕ → ℕ → Option String → Order → Option String → Option OffsetPaginationParams
unfolding page_size
get_offset_pagination limit offset sort order q =
    Option.map (λ n. record { limit = n; offset = offset; sort = sort; order = order; q = q })
      (page_size limit)

unfoldable pub get_cursor_pagination :
    Option String → Option ℕ → Option String → Option CursorPaginationParams
unfolding page_size
get_cursor_pagination cursor limit q =
    Option.map (λ n. record { cursor = cursor; limit = n; q = q }) (page_size limit)

pub record Page (Row : Type 0) : Type 0 where
  pub items : List Row
  pub total : ℕ
  pub limit : ℕ
  pub offset : ℕ
  pub has_more : Bool

pub record CursorPage (Row : Type 0) : Type 0 where
  pub items : List Row
  pub next_cursor : Option String
  pub has_more : Bool

-- A statement on one table: its WHERE clause and its ORDER BY clause, if any.
pub record Select (Row : Type 0) : Type 0 where
  pub condition : Row → Bool
  pub order : Option (Row → Row → Bool)

-- How the database arranges the rows of one query by its ORDER BY clause: rows that tie may stand
-- either way, and another query may have them the other way.
pub record Arrangement (Row : Type 0) : Type 0 where
  pub arrange : (Row → Row → Bool) → List Row → List Row
  pub arrange_sorted :
      (stands_before : Row → Row → Bool) (rs : List Row)
      → IsOrder stands_before
      → IsSorted stands_before (arrange stands_before rs)
  pub arrange_same_rows :
      (stands_before : Row → Row → Bool) (rs : List Row) → Permᴰ (arrange stands_before rs) rs

-- `select(Model).where(...)`
abbrev pub select_where : {Row : Type 0} → (Row → Bool) → Select Row
select_where p = record { condition = p; order = none }

abbrev pub filtered : {Row : Type 0} → Select Row → (Row → Bool) → Select Row
filtered statement p = record statement { condition = λ r. statement.condition r && p r }

-- `value` where it is a text that is not empty.
abbrev pub nonempty : Option String → Option String
nonempty none = none
nonempty (some s) = if str_eq s "" then none else some s

-- Is `params.sort in allowed_fields`?
abbrev pub sort_field : Option String → List String → String → String
sort_field none allowed_fields default_field = default_field
sort_field (some field) allowed_fields default_field =
    if contains field allowed_fields then field else default_field

abbrev pub directed : {Row : Type 0} → Order → (Row → Row → Bool) → Row → Row → Bool
directed asc column a b = column a b
directed desc column a b = column b a

abbrev pub last_of : {Row : Type 0} → List Row → Option Row
last_of [] = none
last_of (r ∷ []) = some r
last_of (r ∷ x ∷ rs) = last_of (x ∷ rs)

-- `false` stands before `true`.
abbrev pub bool_before : Bool → Bool → Bool
bool_before true b = b
bool_before false b = true

module _ {Row : Type 0} where
  -- `column` is the ascending order of the rows by the column of a name.
  unfoldable pub apply_sort :
      (String → Row → Row → Bool)
      → Select Row
      → OffsetPaginationParams
      → List String
      → String
      → Select Row
  apply_sort column statement params allowed_fields default_field =
      let field_name = sort_field params.sort allowed_fields default_field in
      record statement { order = some (directed params.order (column field_name)) }

  abbrev pub search_given :
      (String → String → Bool) → Select Row → Option String → List (Row → String) → Select Row
  search_given ilike statement none fields = statement
  search_given ilike statement (some q) [] = statement
  search_given ilike statement (some q) (field ∷ fields) =
      filtered statement (λ r. any (λ f. ilike (f r) ("%" & (q & "%"))) (field ∷ fields))

  -- `ilike` is that of the database.
  unfoldable pub apply_search :
      (String → String → Bool)
      → Select Row
      → OffsetPaginationParams
      → List (Row → String)
      → Select Row
  apply_search ilike statement params search_fields =
      search_given ilike statement (nonempty params.q) search_fields

module _ {Row : Type 0} {key : Row → ℕ} (table : Table Row key) where
  abbrev pub in_order : Option (Row → Row → Bool) → List Row → List Row
  in_order none rows = rows
  in_order (some stands_before) rows = table.order_by stands_before rows

  -- All rows of a statement in whose order no two of them tie.
  abbrev pub rows_of : Select Row → table.State → List Row
  rows_of statement s = in_order statement.order (table.scalars statement.condition s)

  -- All rows of a statement, as one query arranges them.
  abbrev pub arranged : Arrangement Row → Select Row → table.State → List Row
  arranged arrangement statement s =
      arrangement.arrange (Option.get_or statement.order (λ a b. true))
        (table.scalars statement.condition s)

  -- The page is one query, with an arrangement of its own.
  unfoldable pub paginate_offset :
      Arrangement Row → Select Row → OffsetPaginationParams → table.State → Page Row
  paginate_offset arrangement statement params s =
      let items = take params.limit (drop params.offset (arranged arrangement statement s)) in
      let total = length (table.scalars statement.condition s) in
      record {
        items = items;
        total = total;
        limit = params.limit;
        offset = params.offset;
        has_more = ltb (params.offset + length items) total;
      }

-- One more column behind the ORDER BY clause of a statement.
abbrev pub then_by :
    {Row : Type 0} → Option (Row → Row → Bool) → (Row → Row → Bool) → Row → Row → Bool
then_by none column a b = column a b
then_by (some first) column a b =
    if first a b then (if first b a then column a b else true) else false

-- `model.id > last_id`
abbrev pub is_after : ℤ → ℕ → Bool
is_after (pos n) i = ltb n i
is_after (negsuc n) i = true

module _ (runtime : Runtime) where
  -- `none` is a ValueError, of which a UnicodeDecodeError is one.
  unfoldable pub encode_cursor : ℕ → Option String
  unfolding urlsafe_b64encode encode decode
  encode_cursor value = decode (urlsafe_b64encode (encode (runtime.str value)))

  unfoldable pub decode_cursor : String → Option ℤ
  unfolding urlsafe_b64decode encode decode Option.bind
  decode_cursor cursor =
      Option.bind (urlsafe_b64decode (encode cursor))
        λ bytes. Option.bind (decode bytes) runtime.int

  module _ {Row : Type 0} {key : Row → ℕ} (table : Table Row key) where
    abbrev pub from_cursor : Option String → Select Row → Option (Select Row)
    from_cursor none statement = some statement
    from_cursor (some cursor) statement =
        Option.map (λ last_id. filtered statement (λ r. is_after last_id (key r)))
          (decode_cursor cursor)

    -- The cursor of the next page, where there is one; the outer option is a ValueError.
    abbrev pub cursor_of : Bool → Option Row → Option (Option String)
    cursor_of true (some r) = Option.map some (encode_cursor (key r))
    cursor_of true none = some none
    cursor_of false last = some none

    abbrev pub cut : ℕ → List Row → Option (CursorPage Row)
    cut limit rows =
        let has_more = ltb limit (length rows) in
        let items = take limit rows in
        Option.map
          (λ next_cursor. record { items = items; next_cursor = next_cursor; has_more = has_more })
          (cursor_of has_more (last_of items))

    unfoldable pub paginate_cursor :
        Select Row → CursorPaginationParams → table.State → Option (CursorPage Row)
    unfolding encode_cursor decode_cursor Option.bind
    paginate_cursor statement params s = Option.bind (from_cursor params.cursor statement) λ after.
        cut params.limit (
          take (params.limit + 1)
            (rows_of table (record after { order = some (then_by after.order (by_key key)) }) s))
