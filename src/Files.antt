-- ===== src/Files.antt =====
-- app/api/files.py: the files of a user, in an object storage and a table.
pub mod Ownership
pub mod Listing
pub mod Samples
use Prim.Native.String.{◌++◌}
use fastapi_auth_api.Base.{
  ℕ, suc, String, Bool, true, false, not, ◌||◌, Option, none, some, List, [], ◌∷◌, ◌==◌, str_eq,
  contains, if◌then◌else◌,
}
use fastapi_auth_api.Http.{
  Result, Action, HttpException, http, server_error, pure, gets, modify, or_raise, raise_if, ok,
  err, ◌>>=◌, ◌>>◌,
}
use fastapi_auth_api.Models.{User, FileUpload}
use fastapi_auth_api.Services.{Services, World}
use fastapi_auth_api.Dependencies.{get_current_user}
use fastapi_auth_api.Uploads.Csv.{CsvRow, validate_csv_content}
use fastapi_auth_api.Uploads.{
  Bytes, UploadCategory, categories, find_category, read_and_validate_stream,
}

-- The object storage behind app/services/storage.py, and what the first row of a text is to
-- csv.reader. `none` is a call that raises.
pub record Storage : Type 1 where
  pub State : Type 0
  pub configured : Bool
  pub upload_fileobj : String → List Bytes → Option String → State → Option State
  pub delete_object : String → State → Option State
  pub generate_presigned_url : String → String
  pub build_object_key : ℕ → ℕ → String → String → String
  pub first_row : String → CsvRow

-- An `UploadFile`: its name, its content type and what its reads return.
pub record Upload : Type 0 where
  pub filename : Option String
  pub content_type : Option String
  pub chunks : List Bytes

abbrev pub not_configured : HttpException
not_configured = http 503 "File storage is not configured"

abbrev pub no_file : HttpException
no_file = http 404 "File not found"

-- `file.filename or "upload"`
abbrev pub name_of : Option String → String
name_of none = "upload"
name_of (some filename) = if str_eq filename "" then "upload" else filename

-- An f-string prints None by its name.
abbrev pub shown : Option String → String
shown none = "None"
shown (some s) = s

abbrev pub is_allowed : Option String → List String → Bool
is_allowed none allowed = false
is_allowed (some type) allowed = contains type allowed

abbrev pub or_fail : {S A : Type 0} → Result A → Action S A
or_fail r s = (r, s)

abbrev pub raise_some : {S : Type 0} → Option HttpException → Action S (Unit {0})
raise_some none s = (ok tt, s)
raise_some (some e) s = (err e, s)

-- A row that is not one of the user is taken as missing.
abbrev pub belongs_to : ℕ → Option FileUpload → Option FileUpload
belongs_to user_id none = none
belongs_to user_id (some file) = if file.user_id == user_id then some file else none

module _ (sv : Services) (st : Storage) (now : ℕ) where
  abbrev pub FileWorld : Type 0
  FileWorld = World sv × st.State

  -- A call that does not touch the storage.
  abbrev pub on_world : {A : Type 0} → Action (World sv) A → Action FileWorld A
  on_world call (w, objects) = let (r, w') = call w in (r, (w', objects))

  -- A call of the storage, which may raise.
  abbrev pub on_objects : (st.State → Option st.State) → Action FileWorld (Unit {0})
  on_objects call (w, objects) = elim (call objects) [
    | none ↦ (err server_error, (w, objects))
    | some objects' ↦ (ok tt, (w, objects'))
  ]

  abbrev pub require_storage_configured : Action FileWorld (Unit {0})
  require_storage_configured = raise_if (not st.configured) not_configured

  abbrev pub new_file : User → String → Upload → ℕ → World sv → FileUpload
  new_file user category file size_bytes w = record {
    id = sv.files.next_id w.files;
    user_id = user.id;
    filename = name_of file.filename;
    content_type = shown file.content_type;
    category = category;
    size_bytes = size_bytes;
    storage_key = st.build_object_key w.draws user.id category (name_of file.filename);
    created_at = now;
  }

  -- The key of the new object takes a draw; then the object is stored and the row after it.
  unfoldable pub store : User → String → Upload → ℕ → Action FileWorld FileUpload
  store user category file size_bytes (w, objects) =
      let row = new_file user category file size_bytes w in
      (on_objects (st.upload_fileobj row.storage_key file.chunks file.content_type)
          >> on_world (modify (λ v. record v { files = sv.files.save row v.files }) >> pure row))
        (record w { draws = suc w.draws }, objects)

  -- `if category == "csv": validate_csv_content(...)`: what it raises.
  unfoldable pub csv_problem : String → Upload → Option HttpException
  csv_problem category file =
      if str_eq category "csv" then validate_csv_content st.first_row file.chunks else none

  -- The body of `upload_file`, for the current user.
  unfoldable pub upload : String → Upload → User → Action FileWorld FileUpload
  unfolding read_and_validate_stream store
  upload category file current_user = do
    require_storage_configured
    upload_category ← or_raise (find_category category categories) (
        http 400 (
          "Unknown category '"
          ++ (category ++ "'. Choose one of: ['csv', 'image', 'pdf', 'video']")))
    raise_if (not (is_allowed file.content_type upload_category.allowed_content_types)) (
        http 400 (
          "Content-Type '"
          ++ (shown file.content_type ++ ("' is not allowed for " ++ (category ++ " uploads")))))
    size_bytes ← or_fail (read_and_validate_stream sv.runtime.str upload_category file.chunks)
    raise_some (csv_problem category file)
    store current_user category file size_bytes

  -- `db.get(FileUpload, file_id)`, of the current user.
  abbrev pub own_file : ℕ → User → Action FileWorld FileUpload
  own_file file_id current_user = do
    found ← on_world (gets (λ w. sv.files.get file_id w.files))
    or_raise (belongs_to current_user.id found) no_file

  -- The body of `get_file`: the row and a URL to download it from.
  unfoldable pub download : ℕ → User → Action FileWorld (FileUpload × String)
  download file_id current_user = do
    file ← own_file file_id current_user
    require_storage_configured
    pure (file, st.generate_presigned_url file.storage_key)

  -- The body of `delete_file`.
  unfoldable pub remove : ℕ → User → Action FileWorld (Unit {0})
  remove file_id current_user = do
    file ← own_file file_id current_user
    require_storage_configured
    on_objects (st.delete_object file.storage_key)
    on_world (modify (λ w. record w { files = sv.files.delete file.id w.files }))

  module _ (token : sv.jwt.Token) where
    unfoldable pub upload_file : String → Upload → Action FileWorld FileUpload
    unfolding get_current_user upload
    upload_file category file = on_world (get_current_user sv now token) >>= upload category file

    unfoldable pub get_file : ℕ → Action FileWorld (FileUpload × String)
    unfolding get_current_user download
    get_file file_id = on_world (get_current_user sv now token) >>= download file_id

    unfoldable pub delete_file : ℕ → Action FileWorld (Unit {0})
    unfolding get_current_user remove
    delete_file file_id = on_world (get_current_user sv now token) >>= remove file_id
