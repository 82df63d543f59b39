-- ===== src/Admin/Listings.antt =====
-- The listings of app/api/admin.py: accounts by offset and by cursor.
use Prim.Native.String.{◌++◌ as ◌&◌}
use fastapi_auth_api.Base.{
  ℕ, String, Bool, true, false, Option, none, some, List, [], ◌∷◌, if◌then◌else◌, leb, str_eq, not,
}
use fastapi_auth_api.Http.{Action, http, gets, or_raise, ◌>>=◌}
use fastapi_auth_api.Models.{User}
use fastapi_auth_api.Services.{Services, World}
use fastapi_auth_api.Rbac.{require_permissions}
use fastapi_auth_api.Pagination.{
  Collation, Select, Page, CursorPage, OffsetPaginationParams, CursorPaginationParams, bool_before,
  Arrangement, select_where, filtered, nonempty, apply_search, apply_sort, paginate_offset,
  paginate_cursor,
}

abbrev pub user_sort_fields : List String
user_sort_fields = "id" ∷ "email" ∷ "created_at" ∷ "is_active" ∷ "is_verified" ∷ []

abbrev pub same_bool : Bool → Bool → Bool
same_bool true b = b
same_bool false b = not b

-- `if is_active is not None`
abbrev pub with_status : Option Bool → Select User → Select User
with_status none statement = statement
with_status (some active) statement = filtered statement (λ u. same_bool u.is_active active)

module _ (collation : Collation) where
  -- The ascending order by a column of the users table.
  abbrev pub user_column : String → User → User → Bool
  user_column field a b =
      if str_eq field "email"
      then collation.text_before a.email b.email
      else if str_eq field "created_at"
      then leb a.created_at b.created_at
      else if str_eq field "is_active"
      then bool_before a.is_active b.is_active
      else if str_eq field "is_verified"
      then bool_before a.is_verified b.is_verified
      else leb a.id b.id

  -- `if pagination.q`
  abbrev pub matching : Option String → Select User → Select User
  matching none statement = statement
  matching (some q) statement = filtered statement (λ u. collation.ilike u.email ("%" & (q & "%")))

  module _ (sv : Services) where
    unfoldable pub list_users :
        Arrangement User → OffsetPaginationParams → Option Bool → World sv → Page User
    unfolding apply_search apply_sort paginate_offset
    list_users arrangement pagination is_active w =
        let statement = with_status is_active (select_where (λ _. true)) in
        let found = apply_search collation.ilike statement pagination ((λ u. u.email) ∷ []) in
        paginate_offset sv.users arrangement
          (apply_sort user_column found pagination user_sort_fields "id") pagination w.users

    -- Both ValueErrors of the page are answered in these words: only the first is ever raised.
    unfoldable pub list_users_feed : CursorPaginationParams → Action (World sv) (CursorPage User)
    list_users_feed pagination = do
      page ← gets (λ w.
          paginate_cursor sv.runtime sv.users
            (matching (nonempty pagination.q) (select_where (λ _. true))) pagination w.users)
      or_raise page (http 400 "Invalid cursor")

    module _ (now : ℕ) (token : sv.jwt.Token) where
      unfoldable pub list_users_route :
          Arrangement User → OffsetPaginationParams → Option Bool → Action (World sv) (Page User)
      unfolding require_permissions list_users
      list_users_route arrangement pagination is_active =
          require_permissions sv now token ("users:read" ∷ []) >>= λ _.
          gets (list_users arrangement pagination is_active)

      unfoldable pub list_users_feed_route :
          CursorPaginationParams → Action (World sv) (CursorPage User)
      unfolding list_users_feed
      list_users_feed_route pagination =
          require_permissions sv now token ("users:read" ∷ []) >>= λ _. list_users_feed pagination
