-- ===== src/Uploads/Csv.antt =====
-- `validate_csv_content` of app/services/file_validation.py: a look at the start of a CSV file.
use fastapi_auth_api.Base.{ℕ, String, Option, none, some, List, [], ◌∷◌, ◌++◌, take}
use fastapi_auth_api.Http.{HttpException, http, server_error}
use fastapi_auth_api.Codec.Utf8.{decode}
use fastapi_auth_api.Uploads.{Bytes}

-- `next(reader)`: a row, no row (StopIteration), or a text that the reader refuses (csv.Error).
pub data CsvRow : Type 0 where
  row : List String → CsvRow
  stop_iteration : CsvRow
  csv_error : CsvRow

-- The file behind the chunks, from its start.
abbrev pub contents : List Bytes → Bytes
contents [] = []
contents (chunk ∷ later) = chunk ++ contents later

abbrev pub sample_size : ℕ
sample_size = 8192

abbrev pub not_utf8 : HttpException
not_utf8 = http 400 "CSV file is not valid UTF-8 text"

-- The refusal of the first row, if any.
abbrev pub of_row : CsvRow → Option HttpException
of_row (row []) = some (http 400 "CSV file has no columns")
of_row (row (column ∷ columns)) = none
of_row stop_iteration = some (http 400 "CSV file has no rows")
of_row csv_error = some server_error

-- The exception that the call raises, if any.
unfoldable pub validate_csv_content : (String → CsvRow) → List Bytes → Option HttpException
unfolding decode
validate_csv_content first_row chunks = elim (decode (take sample_size (contents chunks))) [
  | none ↦ some not_utf8
  | some text ↦ of_row (first_row text)
]
