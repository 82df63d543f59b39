-- ===== src/Pagination/Cursor.antt =====
-- The cursors of app/services/pagination.py: a row id as base64.
use mathlib.Core.Option
use fastapi_auth_api.Base.{ℕ, ◌≡◌, refl, String, some, pos}
use fastapi_auth_api.Services.Runtime.{Runtime}
use fastapi_auth_api.Codec.Base64.{urlsafe_b64encode, urlsafe_b64decode-urlsafe_b64encode}
use fastapi_auth_api.Codec.Utf8.{encode}
use fastapi_auth_api.Codec.Utf8.RoundTrip.{decode-encode, encode_bytes}
use fastapi_auth_api.Codec.Ascii.{urlsafe_b64encode-Ascii, decode-Ascii}
use fastapi_auth_api.Pagination.{encode_cursor, decode_cursor}

module _ (runtime : Runtime) where
  -- Every row id has a cursor, which decodes to that id.
  pub decode_cursor-encode_cursor :
      (id : ℕ)
      → (cursor : String) × (encode_cursor runtime id ≡ some cursor)
        × (decode_cursor runtime cursor ≡ some (pos id))
  unfolding encode_cursor decode_cursor Option.bind
  decode_cursor-encode_cursor id =
      let s = runtime.str id in
      let b64 = urlsafe_b64encode (encode s) in
      let (cursor, found, same) = decode-Ascii b64 (urlsafe_b64encode-Ascii (encode s)) in
      let read = urlsafe_b64decode-urlsafe_b64encode (encode s) (encode_bytes s) in
      (cursor, found, rw (same, read, decode-encode s, runtime.int-str id) refl)
