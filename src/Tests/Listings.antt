-- ===== src/Tests/Listings.antt =====
-- Cursors, the feed of accounts and the list of files.
use fastapi_auth_api.Base.{
  ℕ, zero, suc, ◌≡◌, refl, String, true, some, none, pos, List, [], ◌∷◌, arith,
}
use fastapi_auth_api.Http.{ok}
use fastapi_auth_api.Models.{User, FileUpload}
use fastapi_auth_api.Services.{World}
use fastapi_auth_api.Rbac.{require_permissions}
use fastapi_auth_api.Pagination.{
  Collation, CursorPaginationParams, OffsetPaginationParams, desc, encode_cursor, decode_cursor,
  get_cursor_pagination, paginate_cursor, paginate_offset, apply_sort, Arrangement,
}
use fastapi_auth_api.Pagination.Cursor.{decode_cursor-encode_cursor}
use fastapi_auth_api.Pagination.Offset.{walk}
use fastapi_auth_api.Admin.Listings.{list_users, list_users_feed_route}
use fastapi_auth_api.Admin.Feed.{crawl, feed_lists_all}
use fastapi_auth_api.Files.Listing.{files_of}
use mathlib.Core.List.{Permᴰ}
use mathlib.Core.List.Permᴰ
use fastapi_auth_api.Memory.Sorting.{insertion_sort, insertion_sort-IsSorted, insertion_sort-Permᴰ}
use fastapi_auth_api.Memory.{memory, memory_runtime}
use fastapi_auth_api.Tests.Fixtures.{jane, with_jane, noon, access_payload}
use fastapi_auth_api.Tests.Admin.{moderated, moderating}
use fastapi_auth_api.Tests.Files.{paper}

decode_cursor-encode_cursor_example :
    (cursor : String) × (encode_cursor memory_runtime 7 ≡ some cursor)
    × (decode_cursor memory_runtime cursor ≡ some (pos 7))
decode_cursor-encode_cursor_example = decode_cursor-encode_cursor memory_runtime 7

-- "1" is written MQ==.
cursor_of_one : encode_cursor memory_runtime 1 ≡ some "MQ=="
unfolding encode_cursor
cursor_of_one = refl

broken_cursor : decode_cursor memory_runtime "M" ≡ none
unfolding decode_cursor
broken_cursor = refl

abbrev collation : Collation
collation = record { text_before = λ a b. true; ilike = λ a b. true }

abbrev mary : User
mary = record jane { id = 2; email = "mary@x.org" }

abbrev two_users : World memory
two_users = record moderated { users = memory.users.save mary moderated.users }

abbrev one_a_page : CursorPaginationParams
one_a_page = record { cursor = none; limit = 1; q = none }

parsed : get_cursor_pagination none (some 1) none ≡ some one_a_page
unfolding get_cursor_pagination
parsed = refl

moderator_reads_two :
    require_permissions memory noon access_payload ("users:read" ∷ []) two_users
    ≡ (ok moderating, two_users)
unfolding require_permissions
moderator_reads_two = refl

feed_lists_all_example :
    (rows : List User) × (crawl collation memory noon access_payload one_a_page 3 none two_users
      ≡ (ok (some rows), two_users))
feed_lists_all_example =
    let all =
      feed_lists_all collation memory noon access_payload two_users moderating (some 1) none
        one_a_page 3 moderator_reads_two parsed (omega arith) in
    (all.0, all.1)

-- Two requests are enough for two accounts, one a page.
crawled :
    crawl collation memory noon access_payload one_a_page 2 none two_users
    ≡ (ok (some (moderating ∷ mary ∷ [])), two_users)
unfolding crawl list_users_feed_route require_permissions paginate_cursor
crawled = refl

too_large_page : get_cursor_pagination none (some 101) none ≡ none
unfolding get_cursor_pagination
too_large_page = refl

abbrev newest_first : OffsetPaginationParams
newest_first = record { limit = 1; offset = 0; sort = some "created_at"; order = desc; q = none }

abbrev last_ids_first : OffsetPaginationParams
last_ids_first = record { limit = 1; offset = 0; sort = none; order = desc; q = none }

abbrev by_insertion : {Row : Type 0} → Arrangement Row
by_insertion = record {
  arrange = insertion_sort;
  arrange_sorted = λ le rs o. insertion_sort-IsSorted le o rs;
  arrange_same_rows = insertion_sort-Permᴰ;
}

abbrev exchanged : {Row : Type 0} → List Row → List Row
exchanged [] = []
exchanged (a ∷ []) = a ∷ []
exchanged (a ∷ b ∷ rs) = b ∷ a ∷ rs

pub exchanged-Permᴰ : {Row : Type 0} (rs : List Row) → Permᴰ (exchanged rs) rs
exchanged-Permᴰ [] = Permᴰ.refl []
exchanged-Permᴰ (a ∷ []) = Permᴰ.refl (a ∷ [])
exchanged-Permᴰ (a ∷ b ∷ rs) = Permᴰ.swap refl refl

-- Another query, which finds the first two rows the other way.
abbrev exchanged_first : {Row : Type 0} → Arrangement Row
exchanged_first = record {
  arrange = λ le rs. insertion_sort le (exchanged rs);
  arrange_sorted = λ le rs o. insertion_sort-IsSorted le o (exchanged rs);
  arrange_same_rows =
      λ le rs. Permᴰ.trans (insertion_sort-Permᴰ le (exchanged rs)) (exchanged-Permᴰ rs);
}

abbrev in_turn : {Row : Type 0} → ℕ → Arrangement Row
in_turn zero = by_insertion
in_turn (suc n) = exchanged_first

abbrev janes_paper : World memory
janes_paper = record with_jane { files = memory.files.save paper with_jane.files }

abbrev same_size : OffsetPaginationParams
same_size = record last_ids_first { sort = some "size_bytes" }

abbrev copy : FileUpload
copy = record paper { id = 2 }

abbrev two_papers : World memory
two_papers = record janes_paper { files = memory.files.save copy janes_paper.files }

-- Sorted by a size that two files share, the pages of two queries may hold one of them twice and
-- the other not at all.
page_twice :
    walk memory.files two_papers.files in_turn
      (files_of collation memory jane same_size)
      same_size
      2
      0
    ≡ some (paper ∷ paper ∷ [])
unfolding walk paginate_offset apply_sort
page_twice = refl

first_of_two :
    list_users collation memory by_insertion newest_first (some true) two_users
    ≡ record { items = moderating ∷ []; total = 2; limit = 1; offset = 0; has_more = true }
unfolding list_users
first_of_two = refl
