-- ===== src/Codec/Utf8.antt =====
-- `str.encode()` and `bytes.decode()`: UTF-8.
pub mod Steps
pub mod RoundTrip
pub mod Cut
use Prim.Native.Char.{Char, code}
use Prim.Native.String as Text
use mathlib.Core.Option
use fastapi_auth_api.Codec.Chars.{chr, chr-code, code_range}
use fastapi_auth_api.Base.{
  ℕ, zero, suc, ◌+◌, ◌-◌, ◌*◌, ◌/◌, ◌%◌, ◌≤◌, ◌<◌, ◌≡◌, Bool-cases, ltb→lt, ◌⊎◌, inl, inr, refl,
  ◌∙◌, String, Option, none, some, List, [], ◌∷◌, ◌++◌, arith, ltb, leb, ◌==◌, ◌&&◌, All,
  if◌then◌else◌,
}

-- The bytes of a code point.
unfoldable pub encode_code : ℕ → List ℕ
encode_code n =
    if ltb n 128
    then n ∷ []
    else if ltb n 2048
    then (192 + n / 64) ∷ (128 + n % 64) ∷ []
    else if ltb n 65536
    then (224 + n / 4096) ∷ (128 + n / 64 % 64) ∷ (128 + n % 64) ∷ []
    else (240 + n / 262144) ∷ (128 + n / 4096 % 64) ∷ (128 + n / 64 % 64) ∷ (128 + n % 64) ∷ []

-- Between two characters, or within one: the number of bytes after the next one, the bits so far,
-- and the least and the greatest byte that may come next.
pub data Reading : Type 0 where
  ready : Reading
  within : ℕ → ℕ → ℕ → ℕ → Reading

-- The first byte of a character. No character has two encodings, and surrogates have none.
unfoldable pub first_byte : ℕ → Option (Reading × List ℕ)
first_byte b =
    if ltb b 128
    then some (ready, b ∷ [])
    else if ltb b 194
    then none
    else if ltb b 224
    then some (within 0 (b - 192) 128 191, [])
    else if b == 224
    then some (within 1 0 160 191, [])
    else if b == 237
    then some (within 1 13 128 159, [])
    else if ltb b 240
    then some (within 1 (b - 224) 128 191, [])
    else if b == 240
    then some (within 2 0 144 191, [])
    else if ltb b 244
    then some (within 2 (b - 240) 128 191, [])
    else if b == 244
    then some (within 2 4 128 143, [])
    else none

abbrev pub after_byte : ℕ → ℕ → Reading × List ℕ
after_byte zero bits = (ready, bits ∷ [])
after_byte (suc more) bits = (within more bits 128 191, [])

unfoldable pub read_byte : Reading → ℕ → Option (Reading × List ℕ)
unfolding first_byte
read_byte ready b = first_byte b
read_byte (within more bits low high) b =
    if leb low b && leb b high then some (after_byte more (bits * 64 + (b - 128))) else none

unfoldable pub codes_from : Reading → List ℕ → Option (List ℕ)
unfolding read_byte
codes_from ready [] = some []
codes_from (within more bits low high) [] = none
codes_from reading (b ∷ bs) = elim (read_byte reading b) [
  | none ↦ none
  | some (next, out) ↦ Option.map (λ codes. out ++ codes) (codes_from next bs)
]

unfoldable pub encode : String → List ℕ
unfolding encode_code
encode Text.[] = []
encode (Text.◌∷◌ c s) = encode_code (code c) ++ encode s

-- The text of some code points, where each is one of a character.
unfoldable pub text_of_codes : List ℕ → Option String
unfolding chr
text_of_codes [] = some ""
text_of_codes (n ∷ codes) = elim (chr n) [
  | none ↦ none
  | some c ↦ Option.map (λ s. Text.◌∷◌ c s) (text_of_codes codes)
]

-- `none` is a UnicodeDecodeError.
unfoldable pub decode : List ℕ → Option String
unfolding codes_from text_of_codes
decode bs = elim (codes_from ready bs) [ none ↦ none | some codes ↦ text_of_codes codes ]
