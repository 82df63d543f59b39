-- ===== src/Files/Ownership.antt =====
-- Whose files a user reaches, and what an upload and a deletion leave.
use fastapi_auth_api.Base.{
  ℕ, ◌≡◌, sym, ap, subst, ◌∙◌, String, true, false, inl, inr, none, some, arith, Option-cases,
  Bool-cases, if◌then◌else◌, ◌==◌, ==_iff, str_eq, eq_iff,
}
use fastapi_auth_api.Http.{ok, err}
use fastapi_auth_api.Models.{User, FileUpload}
use fastapi_auth_api.Services.{Services, World}
use fastapi_auth_api.Uploads.{UploadCategory, categories, find_category, read_and_validate_stream}
use fastapi_auth_api.Uploads.Csv.{validate_csv_content}
use fastapi_auth_api.Uploads.Stream.{Result-cases}
use fastapi_auth_api.Files.{
  Storage, Upload, no_file, is_allowed, csv_problem, new_file, store, upload, download, remove,
}

module _ (sv : Services) (st : Storage) (now file_id : ℕ) (user : User) (w : World sv)
    (o : st.State) where
  -- A user who asks for a file of somebody else is told what is told of a file that is not there,
  -- for a download and for a deletion, and nothing changes.
  pub foreign_file_hidden :
      (file : FileUpload)
      → sv.files.get file_id w.files ≡ some file
      → (file.user_id == user.id) ≡ false
      → (download sv st now file_id user (w, o) ≡ (err no_file, (w, o)))
        × (remove sv st now file_id user (w, o) ≡ (err no_file, (w, o)))
  unfolding download remove
  foreign_file_hidden file stored foreign =
      (ground (arith, stored, foreign), ground (arith, stored, foreign))

  -- A deletion that succeeds was of a file of the user: its row goes and no other, nothing else of
  -- the tables changes, and its object was deleted from the storage.
  pub remove_effect :
      (i : ℕ) {w' : World sv} {o' : st.State}
      → remove sv st now file_id user (w, o) ≡ (ok tt, (w', o'))
      → (file : FileUpload) × (sv.files.get file_id w.files ≡ some file)
        × (file.user_id ≡ user.id)
        × (st.delete_object file.storage_key o ≡ some o')
        × (sv.files.get i w'.files ≡ (if i == file_id then none else sv.files.get i w.files))
  unfolding remove
  remove_effect i {w'} {o'} h = elim (Option-cases (sv.files.get file_id w.files)) [
    | inl e ↦ absurd (ground (arith, h, e))
    | inr (file, e) ↦ elim (Bool-cases (file.user_id == user.id)) [
      | inr f ↦ absurd (ground (arith, h, e, f))
      | inl f ↦ elim (Bool-cases st.configured) [
        | inr c ↦ absurd (ground (arith, h, e, f, c))
        | inl c ↦ elim (Option-cases (st.delete_object file.storage_key o)) [
          | inl d ↦ absurd (ground (arith, h, e, f, c, d))
          | inr (objects, d) ↦
              let files : w'.files ≡ sv.files.delete file.id w.files =
                ground (arith, h, e, f, c, d) in
              (
                file,
                e,
                (==_iff file.user_id user.id).0 f,
                ground (arith, h, e, f, c, d),
                ground (
                  arith,
                  files,
                  sv.files.get_key file_id file w.files e,
                  sv.files.get-delete i file.id w.files,
                ),
              )
        ]
      ]
    ]
  ]

module _ (sv : Services) (st : Storage) (now : ℕ) (category : String) (file : Upload) (user : User)
    (w : World sv) (o : st.State) where
  store_effect :
      (n : ℕ) {row : FileUpload} {w' : World sv} {o' : st.State}
      → store sv st now user category file n (w, o) ≡ (ok row, (w', o'))
      → (row ≡ new_file sv st now user category file n w)
        × (st.upload_fileobj row.storage_key file.chunks file.content_type o ≡ some o')
        × (w'.files ≡ sv.files.save row w.files)
  unfolding store
  store_effect n {row} {w'} {o'} h =
      let new = new_file sv st now user category file n w in
      elim (Option-cases (st.upload_fileobj new.storage_key file.chunks file.content_type o)) [
        | inl e ↦ absurd (ground (arith, h, e))
        | inr (objects, e) ↦
            let same : row ≡ new = ground (arith, h, e) in
            let kept : o' ≡ objects = ground (arith, h, e) in
            (same, rw same (rw kept e), ground (arith, h, e))
      ]

  valid_csv :
      csv_problem sv st now category file ≡ none
      → category ≡ "csv"
      → validate_csv_content st.first_row file.chunks ≡ none
  unfolding csv_problem
  valid_csv v is_csv =
      let tested : str_eq category "csv" ≡ true = (eq_iff category "csv").1 is_csv in
      subst (λ b. (if b then validate_csv_content st.first_row file.chunks else none) ≡ none) tested
        v

  -- What an upload has passed when its file is stored.
  upload_checks :
      (c : UploadCategory) {row : FileUpload} {w' : World sv} {o' : st.State}
      → find_category category categories ≡ some c
      → upload sv st now category file user (w, o) ≡ (ok row, (w', o'))
      → (is_allowed file.content_type c.allowed_content_types ≡ true)
        × ((n : ℕ) × (read_and_validate_stream sv.runtime.str c file.chunks ≡ ok n)
            × (category ≡ "csv" → validate_csv_content st.first_row file.chunks ≡ none)
            × (store sv st now user category file n (w, o) ≡ (ok row, (w', o'))))
  unfolding upload
  upload_checks c e h = elim (Bool-cases (is_allowed file.content_type c.allowed_content_types)) [
    | inr f ↦ absurd (ground (arith, h, e, f))
    | inl f ↦ (
      f,
      elim (Result-cases (read_and_validate_stream sv.runtime.str c file.chunks)) [
        | inr (x, g) ↦ absurd (ground (arith, h, e, f, g))
        | inl (n, g) ↦ elim (Option-cases (csv_problem sv st now category file)) [
          | inr (x, v) ↦ absurd (ground (arith, h, e, f, g, v))
          | inl v ↦ (n, g, valid_csv v, ground (arith, h, e, f, g, v))
        ]
      ],
    )
  ]

  -- An upload that succeeds was of a content type that its category allows and passed the
  -- validation of its stream, and that of CSV content where it was uploaded as CSV. It adds one row under a new id, of the user and with the size that
  -- was validated, and its object was put into the storage under the key of the row.
  pub upload_effect :
      (i : ℕ) {row : FileUpload} {w' : World sv} {o' : st.State}
      → upload sv st now category file user (w, o) ≡ (ok row, (w', o'))
      → (c : UploadCategory) × (find_category category categories ≡ some c)
        × (is_allowed file.content_type c.allowed_content_types ≡ true)
        × (read_and_validate_stream sv.runtime.str c file.chunks ≡ ok row.size_bytes)
        × (category ≡ "csv" → validate_csv_content st.first_row file.chunks ≡ none)
        × (row.user_id ≡ user.id)
        × (st.upload_fileobj row.storage_key file.chunks file.content_type o ≡ some o')
        × (sv.files.get i w'.files
            ≡ (if i == sv.files.next_id w.files then some row else sv.files.get i w.files))
  unfolding upload
  upload_effect i {row} {w'} h = elim (Option-cases (find_category category categories)) [
    | inl e ↦ absurd (ground (arith, h, e))
    | inr (c, e) ↦
        let (allowed, read) = upload_checks c e h in
        let (n, valid, csv, stored) = read in
        let (same, kept, files) = store_effect n stored in
        (
          c,
          e,
          allowed,
          valid ∙ ap (λ r. ok r.size_bytes) (sym same),
          csv,
          ap (λ r. r.user_id) same,
          kept,
          ap (sv.files.get i) files
              ∙ sv.files.get-save i row w.files
              ∙ ap (λ r. if i == r.id then some row else sv.files.get i w.files) same,
        )
  ]
