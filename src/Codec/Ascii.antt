-- ===== src/Codec/Ascii.antt =====
-- Bytes below 128: what base64 writes, and texts that are encoded by one byte for each character.
use Prim.Native.String as Text
use mathlib.Core.Option
use fastapi_auth_api.Base.{
  ℕ, ◌*◌, ◌+◌, ◌/◌, ◌%◌, ◌<◌, ◌≡◌, refl, ap, ◌∙◌, inl, String, some, List, [], ◌∷◌, arith, All,
}
use fastapi_auth_api.Codec.Chars.{chr_small}
use fastapi_auth_api.Codec.Base64.{letter, urlsafe_b64encode}
use fastapi_auth_api.Codec.Utf8.{ready, codes_from, encode_code, encode, decode, text_of_codes}
use fastapi_auth_api.Codec.Utf8.Steps.{codes_from-encode_code}

abbrev pub Ascii : List ℕ → Type 0
Ascii = All (λ b. b < 128)

letter_ascii : (v : ℕ) → letter v < 128
unfolding letter
letter_ascii v = ground arith

pub urlsafe_b64encode-Ascii : (bs : List ℕ) → Ascii (urlsafe_b64encode bs)
unfolding urlsafe_b64encode
urlsafe_b64encode-Ascii [] = tt
urlsafe_b64encode-Ascii (a ∷ []) =
    (letter_ascii (a / 4), (letter_ascii (a % 4 * 16), (omega arith, (omega arith, tt))))
urlsafe_b64encode-Ascii (a ∷ b ∷ []) = (
  letter_ascii (a / 4),
  (letter_ascii (a % 4 * 16 + b / 16), (letter_ascii (b % 16 * 4), (omega arith, tt))),
)
urlsafe_b64encode-Ascii (a ∷ b ∷ c ∷ rest) = (
  letter_ascii (a / 4),
  (
    letter_ascii (a % 4 * 16 + b / 16),
    (letter_ascii (b % 16 * 4 + c / 64), (letter_ascii (c % 64), urlsafe_b64encode-Ascii rest)),
  ),
)

encode_code_ascii : (n : ℕ) → n < 128 → encode_code n ≡ n ∷ []
unfolding encode_code
encode_code_ascii n h = ground arith

one_code :
    (n : ℕ) (bs : List ℕ)
    → n < 128
    → codes_from ready (n ∷ bs) ≡ Option.map (λ codes. n ∷ codes) (codes_from ready bs)
one_code n bs h = rw (encode_code_ascii n h) at (codes_from-encode_code n bs (inl (omega arith)))

codes_from-Ascii : (bs : List ℕ) → Ascii bs → codes_from ready bs ≡ some bs
unfolding codes_from
codes_from-Ascii [] small = refl
codes_from-Ascii (b ∷ bs) (b_small, small) =
    one_code b bs b_small ∙ ap (Option.map (λ codes. b ∷ codes)) (codes_from-Ascii bs small)

text_of_Ascii :
    (bs : List ℕ) → Ascii bs → (t : String) × (text_of_codes bs ≡ some t) × (encode t ≡ bs)
unfolding text_of_codes encode
text_of_Ascii [] small = ("", refl, refl)
text_of_Ascii (b ∷ bs) (b_small, small) =
    let (t, found, back) = text_of_Ascii bs small in
    let (c, read, same) = chr_small b (omega arith) in
    (Text.◌∷◌ c t, ground arith, rw (same, encode_code_ascii b b_small, back) refl)

-- Bytes below 128 are the encoding of a text.
pub decode-Ascii : (bs : List ℕ) → Ascii bs → (t : String) × (decode bs ≡ some t) × (encode t ≡ bs)
unfolding decode
decode-Ascii bs small =
    let (t, found, back) = text_of_Ascii bs small in
    (t, ground (arith, codes_from-Ascii bs small), back)
