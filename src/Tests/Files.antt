-- ===== src/Tests/Files.antt =====
-- Uploads and the clean-up of accounts.
use fastapi_auth_api.Base.{
  arith, some, List, String, ℕ, ◌≡◌, ◌↔◌, ◌≤◌, ◌<◌, refl, true, false, none, [], ◌∷◌,
}
use fastapi_auth_api.Http.{ok, err}
use fastapi_auth_api.Models.{User, FileUpload}
use fastapi_auth_api.Services.{World}
use fastapi_auth_api.Cleanup.{cleanup_unverified_users}
use fastapi_auth_api.Cleanup.Effect.{cleanup_unverified_users_effect}
use fastapi_auth_api.Uploads.{
  find_category, UploadCategory, pdf, looks_like_pdf, fits, read_and_validate_stream, infected,
  eicar_signature,
}
use fastapi_auth_api.Uploads.Stream.{size, IsClean, read_and_validate_stream_iff}
use fastapi_auth_api.Uploads.Csv.{row}
use fastapi_auth_api.Files.{csv_problem, Storage, Upload, remove, upload}
use fastapi_auth_api.Files.Ownership.{upload_effect}
use fastapi_auth_api.Memory.{memory}
use fastapi_auth_api.Memory.Text.{unary}
use fastapi_auth_api.Tests.Fixtures.{jane, empty}

abbrev squatter : User
squatter = record jane { is_verified = false }

abbrev squatted : World memory
squatted = record empty { users = (squatter ∷ [], (tt, tt)) }

-- Ten days after the epoch.
cleanup_unverified_users_effect_example :
    memory.users.get 1 (cleanup_unverified_users memory 864000000000 squatted).1.users ≡ none
cleanup_unverified_users_effect_example =
    (cleanup_unverified_users_effect memory 864000000000 squatted 1 1 1).0.0 (refl, omega arith)

abbrev six : ℕ
six = 6

-- "%PDF-1" in two chunks.
read_and_validate_stream_iff_example :
    (read_and_validate_stream unary pdf ((37 ∷ 80 ∷ 68 ∷ 70 ∷ []) ∷ (45 ∷ 49 ∷ []) ∷ []) ≡ ok 6) ↔ (
      (six ≡ size ((37 ∷ 80 ∷ 68 ∷ 70 ∷ []) ∷ (45 ∷ 49 ∷ []) ∷ []))
      × (0 < six)
      × (six ≤ 20971520)
      × IsClean unary pdf ((37 ∷ 80 ∷ 68 ∷ 70 ∷ []) ∷ (45 ∷ 49 ∷ []) ∷ [])
      × (fits pdf.signature_check (37 ∷ 80 ∷ 68 ∷ 70 ∷ 45 ∷ 49 ∷ []) ≡ true))
read_and_validate_stream_iff_example =
    read_and_validate_stream_iff unary pdf ((37 ∷ 80 ∷ 68 ∷ 70 ∷ []) ∷ (45 ∷ 49 ∷ []) ∷ []) 6

accepted_pdf :
    read_and_validate_stream unary pdf ((37 ∷ 80 ∷ 68 ∷ 70 ∷ []) ∷ (45 ∷ 49 ∷ []) ∷ []) ≡ ok 6
unfolding read_and_validate_stream looks_like_pdf
accepted_pdf = refl

rejected_virus :
    read_and_validate_stream unary pdf ((37 ∷ []) ∷ eicar_signature ∷ []) ≡ err infected
unfolding read_and_validate_stream
rejected_virus = refl

abbrev pub storage : Storage
storage = record {
  State = List String;
  configured = true;
  upload_fileobj = λ key chunks type keys. some (key ∷ keys);
  delete_object = λ key keys. some [];
  generate_presigned_url = λ key. key;
  build_object_key = λ draw user category filename. filename;
  first_row = λ text. row (text ∷ []);
}

abbrev pub paper : FileUpload
paper = record {
  id = 1;
  user_id = 1;
  filename = "paper.pdf";
  content_type = "application/pdf";
  category = "pdf";
  size_bytes = 6;
  storage_key = "paper.pdf";
  created_at = 0;
}

abbrev pub with_paper : World memory
with_paper = record empty { files = memory.files.save paper empty.files }

abbrev mary : User
mary = record jane { id = 2; email = "mary@x.org" }

abbrev without_paper : World memory
without_paper = record with_paper { files = memory.files.delete 1 with_paper.files }

paper_removed :
    remove memory storage 0 1 jane (with_paper, "paper.pdf" ∷ []) ≡ (ok tt, (without_paper, []))
unfolding remove
paper_removed = refl

abbrev paper_upload : Upload
paper_upload = record {
  filename = some "paper.pdf";
  content_type = some "application/pdf";
  chunks = (37 ∷ 80 ∷ 68 ∷ 70 ∷ []) ∷ (45 ∷ 49 ∷ []) ∷ [];
}

paper_uploaded :
    upload memory storage 0 "pdf" paper_upload jane (empty, [])
    ≡ (ok paper, (record with_paper { draws = 1 }, "paper.pdf" ∷ []))
unfolding upload csv_problem looks_like_pdf find_category
paper_uploaded = refl

upload_effect_example :
    (c : UploadCategory) × (read_and_validate_stream unary c
        ((37 ∷ 80 ∷ 68 ∷ 70 ∷ []) ∷ (45 ∷ 49 ∷ []) ∷ [])
      ≡ ok 6)
upload_effect_example =
    let done = upload_effect memory storage 0 "pdf" paper_upload jane empty [] 1 paper_uploaded in
    (done.0, done.3)
