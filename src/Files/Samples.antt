-- ===== src/Files/Samples.antt =====
-- CSV uploads of app/api/files.py whose first 8192 bytes end within a character.
use Prim.Native.Char.{Char, code}
use Prim.Native.String as Text
use Prim.Native.String.{◌++◌ as ◌&◌}
use Prim.Native.String.append
use mathlib.Core.List.{append_assoc}
use fastapi_auth_api.Base.{
  ℕ, ◌+◌, ◌<◌, ◌≡◌, refl, sym, ap, ◌∙◌, String, true, none, some, List, ◌++◌, length, take, arith,
}
use fastapi_auth_api.Http.{ok, err}
use fastapi_auth_api.Models.{User}
use fastapi_auth_api.Services.{Services, World}
use fastapi_auth_api.Codec.Utf8.{encode, encode_code, decode}
use fastapi_auth_api.Codec.Utf8.RoundTrip.{decode-encode}
use fastapi_auth_api.Codec.Utf8.Cut.{decode_cut}
use fastapi_auth_api.Uploads.{Bytes, csv, find_category, read_and_validate_stream}
use fastapi_auth_api.Uploads.Csv.{contents, sample_size, not_utf8, validate_csv_content}
use fastapi_auth_api.Files.{Storage, Upload, is_allowed, csv_problem, upload}

encode-append :
    (p : String) (c : Char) (t : String)
    → encode (p & (Text.◌∷◌ c t)) ≡ encode p ++ (encode_code (code c) ++ encode t)
unfolding encode
encode-append Text.[] c t = ap encode (append.nil (Text.◌∷◌ c t))
encode-append (Text.◌∷◌ d p) c t =
    ap encode (append.cons d p (Text.◌∷◌ c t))
    ∙ ap (λ bs. encode_code (code d) ++ bs) (encode-append p c t)
    ∙ sym (append_assoc (encode_code (code d)) (encode p) (encode_code (code c) ++ encode t))

module _ (sv : Services) (st : Storage) (now : ℕ) (user : User) (w : World sv) (o : st.State) where
  sample_refused :
      (chunks : List Bytes)
      → decode (take sample_size (contents chunks)) ≡ none
      → validate_csv_content st.first_row chunks ≡ some not_utf8
  unfolding validate_csv_content
  sample_refused chunks h = rw (h, validate_csv_content) refl

  -- A CSV upload of an allowed content type that passed the validation of its stream and is the
  -- encoding of a text, one of whose characters begins before byte 8192 and ends after it: the
  -- whole file is valid UTF-8, and yet the upload is answered that it is not; nothing changes.
  pub cut_sample_refused :
      (p : String) (c : Char) (t : String) (file : Upload) (n : ℕ)
      → st.configured ≡ true
      → is_allowed file.content_type csv.allowed_content_types ≡ true
      → read_and_validate_stream sv.runtime.str csv file.chunks ≡ ok n
      → contents file.chunks ≡ encode (p & (Text.◌∷◌ c t))
      → length (encode p) < 8192
      → 8192 < length (encode p) + length (encode_code (code c))
      → (decode (contents file.chunks) ≡ some (p & (Text.◌∷◌ c t)))
        × (upload sv st now "csv" file user (w, o) ≡ (err not_utf8, (w, o)))
  unfolding upload csv_problem find_category
  cut_sample_refused p c t file n configured allowed validated encoded lo hi =
      let cut = decode_cut p c (encode t) sample_size lo hi in
      let sample : decode (take sample_size (contents file.chunks)) ≡ none =
        rw (encoded, encode-append p c t) cut in
      (
        rw encoded (decode-encode (p & (Text.◌∷◌ c t))),
        ground (arith, configured, allowed, validated, sample_refused file.chunks sample),
      )
