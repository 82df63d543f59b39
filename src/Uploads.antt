-- ===== src/Uploads.antt =====
-- app/services/file_validation.py and app/services/virus_scan.py: what an upload may contain.
pub mod Stream
pub mod Csv
use fastapi_auth_api.Base.{
  ℕ, suc, ◌+◌, ◌-◌, ◌*◌, String, Bool, true, false, not, ◌&&◌, ◌||◌, Option, none, some, List, [],
  ◌∷◌, ◌++◌, if◌then◌else◌, ltb, leb, ◌==◌, str_eq, length, take, drop, any,
}
use Prim.Native.String.{◌++◌ as ◌&◌}
use fastapi_auth_api.Http.{Result, ok, err, HttpException, http}

-- Byte strings.
abbrev pub Bytes : Type 0
Bytes = List ℕ

-- `bytes.startswith`
abbrev pub startswith : Bytes → Bytes → Bool
startswith [] bytes = true
startswith (p ∷ ps) [] = false
startswith (p ∷ ps) (b ∷ bs) = if p == b then startswith ps bs else false

-- `needle in bytes`
abbrev pub is_within : Bytes → Bytes → Bool
is_within needle [] = startswith needle []
is_within needle (b ∷ bs) =
    let later = is_within needle bs in if startswith needle (b ∷ bs) then true else later

abbrev pub same_bytes : Bytes → Bytes → Bool
same_bytes [] [] = true
same_bytes [] (b ∷ bs) = false
same_bytes (x ∷ xs) [] = false
same_bytes (x ∷ xs) (y ∷ ys) = if x == y then same_bytes xs ys else false

-- `head[start:stop]`
abbrev pub slice : ℕ → ℕ → Bytes → Bytes
slice start stop head = take (stop - start) (drop start head)

abbrev pub eicar_signature : Bytes
eicar_signature =
    88 ∷ 53 ∷ 79 ∷ 33 ∷ 80 ∷ 37 ∷ 64 ∷ 65 ∷ 80 ∷ 91 ∷ 52 ∷ 92 ∷ 80 ∷ 90 ∷ 88 ∷ 53 ∷ 52 ∷ 40 ∷ 80
    ∷ 94 ∷ 41 ∷ 55 ∷ 67 ∷ 67 ∷ 41 ∷ 55 ∷ 125 ∷ 36 ∷ 69 ∷ 73 ∷ 67 ∷ 65 ∷ 82 ∷ 45 ∷ 83 ∷ 84 ∷ 65 ∷ 78
    ∷ 68 ∷ 65 ∷ 82 ∷ 68 ∷ 45 ∷ 65 ∷ 78 ∷ 84 ∷ 73 ∷ 86 ∷ 73 ∷ 82 ∷ 85 ∷ 83 ∷ 45 ∷ 84 ∷ 69 ∷ 83 ∷ 84
    ∷ 45 ∷ 70 ∷ 73 ∷ 76 ∷ 69 ∷ 33 ∷ 36 ∷ 72 ∷ 43 ∷ 72 ∷ 42 ∷ []

unfoldable pub scan_chunk_for_viruses : Bytes → Bool
scan_chunk_for_viruses chunk = not (is_within eicar_signature chunk)

abbrev pub looks_like_jpeg : Bytes → Bool
looks_like_jpeg head = startswith (255 ∷ 216 ∷ 255 ∷ []) head

abbrev pub looks_like_png : Bytes → Bool
looks_like_png head = startswith (137 ∷ 80 ∷ 78 ∷ 71 ∷ 13 ∷ 10 ∷ 26 ∷ 10 ∷ []) head

-- "GIF87a" or "GIF89a"
abbrev pub looks_like_gif : Bytes → Bool
looks_like_gif head =
    startswith (71 ∷ 73 ∷ 70 ∷ 56 ∷ 55 ∷ 97 ∷ []) head
    || startswith (71 ∷ 73 ∷ 70 ∷ 56 ∷ 57 ∷ 97 ∷ []) head

-- "RIFF", and "WEBP" from the ninth byte on
abbrev pub looks_like_webp : Bytes → Bool
looks_like_webp head =
    startswith (82 ∷ 73 ∷ 70 ∷ 70 ∷ []) head
    && same_bytes (slice 8 12 head) (87 ∷ 69 ∷ 66 ∷ 80 ∷ [])

unfoldable pub looks_like_image : Bytes → Bool
looks_like_image head =
    any (λ check. check head)
      (looks_like_jpeg ∷ looks_like_png ∷ looks_like_gif ∷ looks_like_webp ∷ [])

-- "%PDF-"
unfoldable pub looks_like_pdf : Bytes → Bool
looks_like_pdf head = startswith (37 ∷ 80 ∷ 68 ∷ 70 ∷ 45 ∷ []) head

-- "ftyp", "free", "wide" or "moov" from the fifth byte on
abbrev pub looks_like_mp4_or_mov : Bytes → Bool
looks_like_mp4_or_mov head =
    leb 8 (length head)
    && any (same_bytes (slice 4 8 head)) (
        (102 ∷ 116 ∷ 121 ∷ 112 ∷ [])
        ∷ (102 ∷ 114 ∷ 101 ∷ 101 ∷ [])
        ∷ (119 ∷ 105 ∷ 100 ∷ 101 ∷ [])
        ∷ (109 ∷ 111 ∷ 111 ∷ 118 ∷ [])
        ∷ [])

abbrev pub looks_like_webm : Bytes → Bool
looks_like_webm head = startswith (26 ∷ 69 ∷ 223 ∷ 163 ∷ []) head

unfoldable pub looks_like_video : Bytes → Bool
looks_like_video head = looks_like_mp4_or_mov head || looks_like_webm head

pub record UploadCategory : Type 0 where
  pub name : String
  pub allowed_content_types : List String
  pub max_size_bytes : ℕ
  pub signature_check : Option (Bytes → Bool)

abbrev pub image : UploadCategory
image = record {
  name = "image";
  allowed_content_types = "image/jpeg" ∷ "image/png" ∷ "image/webp" ∷ "image/gif" ∷ [];
  max_size_bytes = 10485760;
  signature_check = some looks_like_image;
}

abbrev pub pdf : UploadCategory
pdf = record {
  name = "pdf";
  allowed_content_types = "application/pdf" ∷ [];
  max_size_bytes = 20971520;
  signature_check = some looks_like_pdf;
}

abbrev pub csv : UploadCategory
csv = record {
  name = "csv";
  allowed_content_types = "text/csv" ∷ "application/vnd.ms-excel" ∷ [];
  max_size_bytes = 20971520;
  signature_check = none;
}

abbrev pub video : UploadCategory
video = record {
  name = "video";
  allowed_content_types = "video/mp4" ∷ "video/webm" ∷ "video/quicktime" ∷ [];
  max_size_bytes = 209715200;
  signature_check = some looks_like_video;
}

-- `CATEGORIES.get(name)`
unfoldable pub find_category : String → List UploadCategory → Option UploadCategory
find_category name [] = none
find_category name (c ∷ cs) = if str_eq c.name name then some c else find_category name cs

abbrev pub categories : List UploadCategory
categories = image ∷ pdf ∷ csv ∷ video ∷ []

abbrev pub signature_head_size : ℕ
signature_head_size = 32

-- `str` prints a number.
abbrev pub too_large : (ℕ → String) → UploadCategory → HttpException
too_large str category = http 413 (
    "File exceeds the "
    & (str category.max_size_bytes & (" byte limit for " & (category.name & " uploads"))))

abbrev pub infected : HttpException
infected = http 422 "File failed virus scan"

abbrev pub empty_file : HttpException
empty_file = http 400 "Uploaded file is empty"

abbrev pub mismatch : UploadCategory → HttpException
mismatch category = http 400 ("File content does not match a valid " & (category.name & " file"))

-- `if len(head) < _SIGNATURE_HEAD_SIZE: head += chunk[: _SIGNATURE_HEAD_SIZE - len(head)]`
abbrev pub grow : Bytes → Bytes → Bytes
grow head chunk =
    if ltb (length head) signature_head_size
    then head ++ take (signature_head_size - length head) chunk
    else head

abbrev pub fits : Option (Bytes → Bool) → Bytes → Bool
fits none head = true
fits (some check) head = check head

abbrev pub after_reading : UploadCategory → Result (ℕ × Bytes) → Result ℕ
after_reading category (err e) = err e
after_reading category (ok (total, head)) =
    if total == 0
    then err empty_file
    else (if fits category.signature_check head then ok total else err (mismatch category))

module _ (str : ℕ → String) where
  -- The loop, over what the calls of `upload.read` return before the first empty result: the size
  -- and the head of the upload.
  unfoldable pub read_chunks : UploadCategory → List Bytes → ℕ → Bytes → Result (ℕ × Bytes)
  unfolding scan_chunk_for_viruses
  read_chunks category [] total head = ok (total, head)
  read_chunks category (chunk ∷ later) total head =
      let rest = read_chunks category later (total + length chunk) (grow head chunk) in
      if ltb category.max_size_bytes (total + length chunk)
      then err (too_large str category)
      else (if scan_chunk_for_viruses chunk then rest else err infected)

  unfoldable pub read_and_validate_stream : UploadCategory → List Bytes → Result ℕ
  unfolding read_chunks
  read_and_validate_stream category chunks =
      after_reading category (read_chunks category chunks 0 [])
