-- ===== src/Codec/Utf8/RoundTrip.antt =====
-- Decoding what was encoded gives the text back.
use Prim.Native.Char.{code}
use Prim.Native.String as Text
use fastapi_auth_api.Codec.Chars.{chr-code, code_range}
use fastapi_auth_api.Base.{
  ℕ, ◌<◌, ◌≡◌, Bool-cases, ltb→lt, inl, inr, refl, ◌∙◌, String, some, List, [], ◌∷◌, ◌++◌, arith,
  ltb, All,
}
use fastapi_auth_api.Codec.Utf8.{ready, codes_from, encode_code, encode, decode, text_of_codes}
use fastapi_auth_api.Codec.Utf8.Steps.{codes_from-encode_code}

abbrev pub codes_of : String → List ℕ
codes_of Text.[] = []
codes_of (Text.◌∷◌ c s) = code c ∷ codes_of s

codes_from-encode : (s : String) → codes_from ready (encode s) ≡ some (codes_of s)
unfolding encode codes_from
codes_from-encode Text.[] = refl
codes_from-encode (Text.◌∷◌ c s) =
    codes_from-encode_code (code c) (encode s) (code_range c) ∙ ground (arith, codes_from-encode s)

text_of_codes-codes_of : (s : String) → text_of_codes (codes_of s) ≡ some s
unfolding text_of_codes
text_of_codes-codes_of Text.[] = refl
text_of_codes-codes_of (Text.◌∷◌ c s) = ground (arith, chr-code c, text_of_codes-codes_of s)

-- Decoding what was encoded gives the text back.
pub decode-encode : (s : String) → decode (encode s) ≡ some s
unfolding decode
decode-encode s = ground (arith, codes_from-encode s, text_of_codes-codes_of s)

byte_code : (n : ℕ) → n < 1114112 → All (λ b. b < 256) (encode_code n)
unfolding encode_code
byte_code n h = elim (Bool-cases (ltb n 128)) [
  | inl a ↦ rw a (omega (arith, ltb→lt n 128 a), tt)
  | inr a ↦ elim (Bool-cases (ltb n 2048)) [
    | inl b ↦ rw (a, b) (omega (arith, ltb→lt n 2048 b), (omega arith, tt))
    | inr b ↦ elim (Bool-cases (ltb n 65536)) [
      | inl c ↦ rw (a, b, c) (omega (arith, ltb→lt n 65536 c), (omega arith, (omega arith, tt)))
      | inr c ↦ rw (a, b, c) (omega arith, (omega arith, (omega arith, (omega arith, tt))))
    ]
  ]
]

All-append : (P : ℕ → Type 0) (xs ys : List ℕ) → All P xs → All P ys → All P (xs ++ ys)
All-append P [] ys a b = b
All-append P (x ∷ xs) ys (p, a) b = (p, All-append P xs ys a b)

pub encode_bytes : (s : String) → All (λ b. b < 256) (encode s)
unfolding encode
encode_bytes Text.[] = tt
encode_bytes (Text.◌∷◌ c s) =
    All-append (λ b. b < 256) (encode_code (code c)) (encode s)
      (byte_code (code c) (elim (code_range c) [ inl low ↦ omega arith | inr (from, to) ↦ to ]))
      (encode_bytes s)
