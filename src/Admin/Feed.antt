-- ===== src/Admin/Feed.antt =====
-- GET /admin/users/feed of app/api/admin.py, asked again and again with the cursor of the last page.
use Prim.Native.String.{◌++◌ as ◌&◌}
use mathlib.Core.Option
use fastapi_auth_api.Base.{
  ℕ, zero, suc, ◌≤◌, ◌<◌, ◌≡◌, refl, ap, ◌∙◌, String, Bool, true, inl, inr, Option, none, some,
  List, [], ◌∷◌, ◌++◌, All, arith, length, Option-cases,
}
use fastapi_auth_api.Http.{Action, pure, ok, ◌>>=◌}
use fastapi_auth_api.Http.Rules.{bind_ok}
use fastapi_auth_api.Models.{User}
use fastapi_auth_api.Services.{Services, World}
use fastapi_auth_api.Services.Table.{Occurs}
use fastapi_auth_api.Services.Table.Ordering.{Ascending, Occurs-All}
use fastapi_auth_api.Rbac.{require_permissions}
use fastapi_auth_api.Pagination.{
  Collation, CursorPage, CursorPaginationParams, get_cursor_pagination, select_where, nonempty,
}
use fastapi_auth_api.Pagination.Walk.{page_after, follow, walk, walk_lists_all}
use fastapi_auth_api.Pagination.Feed.{Selected}
use fastapi_auth_api.Admin.Listings.{matching, list_users_feed, list_users_feed_route}

-- A page size that is let through is at least one.
page_size_positive :
    (limit : Option ℕ) (q : Option String) (params : CursorPaginationParams)
    → get_cursor_pagination none limit q ≡ some params
    → 1 ≤ params.limit
unfolding get_cursor_pagination
page_size_positive none q params h = ground arith
page_size_positive (some n) q params h = ground arith

module _ (collation : Collation) where
  -- The accounts that a search asks for.
  abbrev pub listed : Option String → User → Bool
  listed none u = true
  listed (some q) u = collation.ilike u.email ("%" & (q & "%"))

  matching_lem :
      (q : Option String)
      → matching collation q (select_where (λ _. true)) ≡ select_where (listed q)
  matching_lem none = refl
  matching_lem (some q) = refl

  module _ (sv : Services) (now : ℕ) (token : sv.jwt.Token) (params : CursorPaginationParams) where
    -- A client that makes at most so many requests.
    unfoldable pub crawl : ℕ → Option String → Action (World sv) (Option (List User))
    crawl zero cursor = pure none
    crawl (suc requests) cursor =
        list_users_feed_route collation sv now token (record params { cursor = cursor }) >>= λ page.
        elim page.next_cursor [
          | none ↦ pure (some page.items)
          | some next ↦ crawl requests (some next) >>= λ rest.
              pure (Option.map (λ rows. page.items ++ rows) rest)
        ]

    module _ (w : World sv) (reader : User)
        (allowed : require_permissions sv now token ("users:read" ∷ []) w ≡ (ok reader, w)) where
      abbrev asked : User → Bool
      asked = listed (nonempty params.q)

      feed_answered :
          (cursor : Option String) (page : CursorPage User)
          → page_after sv.runtime sv.users w.users asked params cursor ≡ some page
          → list_users_feed collation sv (record params { cursor = cursor }) w ≡ (ok page, w)
      unfolding list_users_feed
      feed_answered cursor page h = rw (matching_lem (nonempty params.q), h) refl

      page_answered :
          (cursor : Option String) (page : CursorPage User)
          → page_after sv.runtime sv.users w.users asked params cursor ≡ some page
          → list_users_feed_route collation sv now token (record params { cursor = cursor }) w
            ≡ (ok page, w)
      unfolding list_users_feed_route
      page_answered cursor page h =
          bind_ok (require_permissions sv now token ("users:read" ∷ []))
            (λ _. list_users_feed collation sv (record params { cursor = cursor })) w w allowed
          ∙ feed_answered cursor page h

      -- What a client does with a page that it is given.
      abbrev carry_on : ℕ → CursorPage User → Action (World sv) (Option (List User))
      unfolding crawl
      carry_on requests page = elim page.next_cursor [
        | none ↦ pure (some page.items)
        | some next ↦ crawl requests (some next) >>= λ rest.
            pure (Option.map (λ rows. page.items ++ rows) rest)
      ]

      carried_on :
          (requests : ℕ) (items : List User) (has_more : Bool) (next_cursor : Option String)
          → (rows : List User)
          → ((next : String) (rest : List User)
              → walk sv.runtime sv.users w.users asked params requests (some next) ≡ some rest
              → crawl requests (some next) w ≡ (ok (some rest), w))
          → follow sv.runtime sv.users w.users asked params
              (λ next. walk sv.runtime sv.users w.users asked params requests (some next))
              (some (record { items = items; next_cursor = next_cursor; has_more = has_more }))
            ≡ some rows
          → carry_on requests
              (record { items = items; next_cursor = next_cursor; has_more = has_more })
              w
            ≡ (ok (some rows), w)
      unfolding crawl
      carried_on requests items has_more none rows later h = ground (arith, h)
      carried_on requests items has_more (some next) rows later h =
          elim (Option-cases (walk sv.runtime sv.users w.users asked params requests (some next))) [
            | inl e ↦ absurd (ground (arith, h, e))
            | inr (rest, e) ↦
                let same : items ++ rest ≡ rows = ground (arith, h, e) in
                bind_ok (crawl requests (some next))
                  (λ found. pure (Option.map (λ more. items ++ more) found)) w w (later next rest e)
                ∙ ap (λ l. (ok (some l), w)) same
          ]

      crawl_follows :
          (requests : ℕ) (cursor : Option String) (rows : List User)
          → walk sv.runtime sv.users w.users asked params requests cursor ≡ some rows
          → crawl requests cursor w ≡ (ok (some rows), w)
      unfolding crawl walk
      crawl_follows zero cursor rows h = absurd (ground arith)
      crawl_follows (suc requests) cursor rows h =
          elim (Option-cases (page_after sv.runtime sv.users w.users asked params cursor)) [
            | inl e ↦ absurd (ground (arith, h, e))
            | inr (page, e) ↦
                bind_ok
                  (list_users_feed_route collation sv now token (record params { cursor = cursor }))
                  (carry_on requests) w w (page_answered cursor page e)
                ∙ carried_on requests page.items page.has_more page.next_cursor rows
                    (λ next rest. crawl_follows requests (some next) rest) (rw e at h)
          ]

  -- A client that may read accounts asks for the feed, with any page size that is let through, and
  -- follows the cursors. It is done after at most one request more than there are accounts that
  -- match its search; the pages together are these accounts, each once, by ascending ids, and
  -- nothing changes.
  pub feed_lists_all :
      (sv : Services) (now : ℕ) (token : sv.jwt.Token) (w : World sv) (reader : User)
      → (limit : Option ℕ) (q : Option String) (params : CursorPaginationParams) (requests : ℕ)
      → require_permissions sv now token ("users:read" ∷ []) w ≡ (ok reader, w)
      → get_cursor_pagination none limit q ≡ some params
      → length (sv.users.scalars (listed (nonempty params.q)) w.users) < requests
      → (rows : List User) × (crawl sv now token params requests none w ≡ (ok (some rows), w))
        × Ascending (λ u. u.id) rows
        × All (Selected sv.users w.users (listed (nonempty params.q))) rows
        × ((u : User) → Selected sv.users w.users (listed (nonempty params.q)) u → Occurs u rows)
  feed_lists_all sv now token w reader limit q params requests allowed parsed enough =
      let p = listed (nonempty params.q) in
      let (rows, walked, ascending, sound, complete) =
        walk_lists_all sv.runtime sv.users w.users p params requests
          (page_size_positive limit q params parsed) enough in
      (
        rows,
        crawl_follows sv now token params w reader allowed requests none rows walked,
        ascending,
        Occurs-All (Selected sv.users w.users p) rows sound,
        complete,
      )
