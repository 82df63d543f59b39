-- ===== src/Files/Listing.antt =====
-- `list_my_files` of app/api/files.py.
use fastapi_auth_api.Base.{
  true, sym, ap, ◌∙◌, ℕ, ◌≡◌, String, Bool, none, some, List, [], ◌∷◌, if◌then◌else◌, leb, ◌==◌,
  str_eq, arith,
}
use fastapi_auth_api.Http.{Action, gets, ◌>>=◌}
use fastapi_auth_api.Models.{User, FileUpload}
use fastapi_auth_api.Services.{Services, World}
use fastapi_auth_api.Services.Table.{IsOrder}
use fastapi_auth_api.Dependencies.{get_current_user}
use fastapi_auth_api.Pagination.{
  Arrangement, asc, desc, Collation, Select, Page, OffsetPaginationParams, select_where, apply_sort,
  paginate_offset, sort_field, directed, Order,
}
use fastapi_auth_api.Pagination.Offset.{NoTies}

abbrev pub sort_fields : List String
sort_fields = "id" ∷ "created_at" ∷ "size_bytes" ∷ "filename" ∷ []

module _ (collation : Collation) where
  -- The ascending order by a column of the file_uploads table.
  abbrev pub file_column : String → FileUpload → FileUpload → Bool
  file_column field a b =
      if str_eq field "created_at"
      then leb a.created_at b.created_at
      else if str_eq field "size_bytes"
      then leb a.size_bytes b.size_bytes
      else if str_eq field "filename"
      then collation.text_before a.filename b.filename
      else leb a.id b.id

  -- The order that a user asks for.
  abbrev pub sorting : OffsetPaginationParams → FileUpload → FileUpload → Bool
  sorting pagination =
      directed pagination.order (file_column (sort_field pagination.sort sort_fields "id"))

  module _ (sv : Services) where
    abbrev pub files_of : User → OffsetPaginationParams → Select FileUpload
    unfolding apply_sort
    files_of user pagination =
        apply_sort file_column (select_where (λ f. f.user_id == user.id)) pagination sort_fields
          "id"

    -- The body, for the current user.
    unfoldable pub list_files :
        Arrangement FileUpload → OffsetPaginationParams → User → World sv → Page FileUpload
    unfolding apply_sort paginate_offset
    list_files arrangement pagination current_user w =
        paginate_offset sv.files arrangement (files_of current_user pagination) pagination w.files

    unfoldable pub list_my_files :
        Arrangement FileUpload
        → ℕ
        → sv.jwt.Token
        → OffsetPaginationParams
        → Action (World sv) (Page FileUpload)
    unfolding list_files
    list_my_files arrangement now token pagination = do
      current_user ← get_current_user sv now token
      gets (list_files arrangement pagination current_user)

-- Ids make an order, in either direction, and no two files tie in it.
pub ids-IsOrder :
    (collation : Collation) (order : Order) → IsOrder (directed order (file_column collation "id"))
ids-IsOrder collation asc = record {
  total = λ a b h. ground arith;
  transitive = λ a b c h h'. ground arith;
}
ids-IsOrder collation desc = record {
  total = λ a b h. ground arith;
  transitive = λ a b c h h'. ground arith;
}

same_id :
    (collation : Collation) (order : Order) (a b : FileUpload)
    → directed order (file_column collation "id") a b ≡ true
    → directed order (file_column collation "id") b a ≡ true
    → a.id ≡ b.id
same_id collation asc a b h h' = ground arith
same_id collation desc a b h h' = ground arith

pub ids-NoTies :
    (collation : Collation) (sv : Services) (w : World sv) (user : User)
    (params : OffsetPaginationParams)
    → NoTies sv.files w.files (files_of collation sv user (record params { sort = none }))
unfolding apply_sort
ids-NoTies collation sv w user params a b (_, stored) (_, stored') h h' =
    let same : a.id ≡ b.id = same_id collation params.order a b h h' in
    let found : some a ≡ some b = sym stored ∙ ap (λ i. sv.files.get i w.files) same ∙ stored' in
    ground (arith, found)
