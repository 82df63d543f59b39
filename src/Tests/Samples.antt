-- ===== src/Tests/Samples.antt =====
-- A CSV file whose 8192nd byte is the first of two of one character.
use Prim.Native.Char.{Char, code}
use Prim.Native.String.{◌++◌ as ◌&◌}
use Prim.Native.String as Text
use fastapi_auth_api.Base.{ℕ, suc, zero, ◌≡◌, refl, ap, String, some, [], ◌∷◌, length, arith}
use fastapi_auth_api.Http.{ok, err}
use fastapi_auth_api.Codec.Utf8.{encode, encode_code, decode}
use fastapi_auth_api.Uploads.{csv, read_and_validate_stream}
use fastapi_auth_api.Uploads.Csv.{contents, not_utf8}
use fastapi_auth_api.Files.{Upload, upload}
use fastapi_auth_api.Files.Samples.{cut_sample_refused}
use fastapi_auth_api.Memory.{memory}
use fastapi_auth_api.Memory.Text.{unary}
use fastapi_auth_api.Tests.Fixtures.{jane, empty}
use fastapi_auth_api.Tests.Files.{storage}

abbrev accented : Char
accented = "é"

-- 8191 digits and an accented letter.
abbrev digits : String
digits = unary 8191

abbrev accented_upload : Upload
unfolding encode
accented_upload = record {
  filename = some "names.csv";
  content_type = some "text/csv";
  chunks = encode (digits & (Text.◌∷◌ accented "")) ∷ [];
}

size_of_digits : (n : ℕ) → length (encode (unary n)) ≡ n
unfolding encode
size_of_digits zero = refl
size_of_digits (suc n) = ap suc (size_of_digits n)

stream_valid : read_and_validate_stream memory.runtime.str csv accented_upload.chunks ≡ ok 8193
unfolding read_and_validate_stream encode
stream_valid = refl

one_chunk : contents accented_upload.chunks ≡ encode (digits & (Text.◌∷◌ accented ""))
unfolding encode
one_chunk = refl

two_bytes : length (encode_code (code accented)) ≡ 2
unfolding encode_code
two_bytes = refl

cut_sample_refused_example :
    (decode (contents accented_upload.chunks) ≡ some (digits & (Text.◌∷◌ accented "")))
    × (upload memory storage 0 "csv" accented_upload jane (empty, []) ≡ (err not_utf8, (empty, [])))
unfolding accented_upload
cut_sample_refused_example =
    cut_sample_refused memory storage 0 jane empty [] digits accented "" accented_upload 8193 refl
      refl stream_valid one_chunk (omega (arith, size_of_digits 8191))
      (omega (arith, size_of_digits 8191, two_bytes))
