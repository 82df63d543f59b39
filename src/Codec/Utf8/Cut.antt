-- ===== src/Codec/Utf8/Cut.antt =====
-- What ends within a character is no UTF-8.
use Prim.Native.Char.{Char, code}
use Prim.Native.String as Text
use mathlib.Core.Option
use mathlib.Core.List.{append_assoc}
use fastapi_auth_api.Codec.Chars.{code_range}
use native.Mathlib.Nat.{zero-add, suc-add}
use fastapi_auth_api.Base.{
  ℕ, zero, suc, ◌+◌, ◌-◌, ◌*◌, ◌/◌, ◌%◌, ◌≤◌, ◌<◌, ◌≡◌, refl, ap, ◌∙◌, Bool-cases, ltb→lt, ◌⊎◌, inl,
  inr, String, none, some, List, [], ◌∷◌, ◌++◌, arith, ltb, length, take,
}
use fastapi_auth_api.Codec.Utf8.{
  ready, within, read_byte, first_byte, codes_from, encode_code, encode, decode,
}
use fastapi_auth_api.Codec.Utf8.Steps.{
  silent, middle_byte, three-Opens, four-Opens, codes_from-encode_code,
}

unfinished :
    (first more bits low high : ℕ)
    → first_byte first ≡ some (within more bits low high, [])
    → codes_from ready (first ∷ []) ≡ none
unfolding codes_from read_byte
unfinished first more bits low high h = silent ready (within more bits low high) first [] h

module _ (n : ℕ) where
  cut_two : 128 ≤ n → n < 2048 → codes_from ready ((192 + n / 64) ∷ []) ≡ none
  unfolding first_byte
  cut_two from to = unfinished (192 + n / 64) 0 (n / 64) 128 191 (ground arith)

  module _ (more first bits second low high : ℕ)
      (opens : first_byte first ≡ some (within (suc more) bits low high, []))
      (above : low ≤ 128 + second % 64) (below : 128 + second % 64 ≤ high) where
    -- The first two bytes of a character of three or four.
    cut_second : codes_from ready (first ∷ (128 + second % 64) ∷ []) ≡ none
    unfolding codes_from read_byte
    cut_second =
        silent ready (within (suc more) bits low high) first ((128 + second % 64) ∷ []) opens
        ∙ silent (within (suc more) bits low high) (within more (bits * 64 + second % 64) 128 191)
            (128 + second % 64) [] (middle_byte more second bits low high above below)

    -- The first three bytes of a character of four.
    cut_third :
        (less third : ℕ)
        → more ≡ suc less
        → codes_from ready (first ∷ (128 + second % 64) ∷ (128 + third % 64) ∷ []) ≡ none
    unfolding codes_from read_byte
    cut_third less third e =
        silent ready (within (suc more) bits low high) first
          ((128 + second % 64) ∷ (128 + third % 64) ∷ []) opens
        ∙ silent (within (suc more) bits low high) (within more (bits * 64 + second % 64) 128 191)
            (128 + second % 64) ((128 + third % 64) ∷ [])
            (middle_byte more second bits low high above below)
        ∙ rw e (
            silent (within (suc less) (bits * 64 + second % 64) 128 191)
              (within less ((bits * 64 + second % 64) * 64 + third % 64) 128 191) (128 + third % 64)
              []
              (middle_byte less third (bits * 64 + second % 64) 128 191 (omega arith)
                (omega arith)))

module _ (n : ℕ) (rest : List ℕ) where
  two_bytes :
      (k : ℕ)
      → 128 ≤ n
      → n < 2048
      → 0 < k
      → k < 2
      → codes_from ready (take k ((192 + n / 64) ∷ (128 + n % 64) ∷ rest)) ≡ none
  two_bytes zero from to lo hi = absurd (omega arith)
  two_bytes (suc zero) from to lo hi = cut_two n from to
  two_bytes (suc (suc k)) from to lo hi = absurd (omega arith)

  three_bytes :
      (k : ℕ)
      → 2048 ≤ n
      → (n < 55296) ⊎ ((57343 < n) × (n < 65536))
      → 0 < k
      → k < 3
      → codes_from ready (take k ((224 + n / 4096) ∷ (128 + n / 64 % 64) ∷ (128 + n % 64) ∷ rest))
        ≡ none
  three_bytes zero from range lo hi = absurd (omega arith)
  three_bytes (suc zero) from range lo hi =
      let (low, high, opens, above, below) = three-Opens n rest from range in
      unfinished (224 + n / 4096) 1 (n / 4096) low high opens
  three_bytes (suc (suc zero)) from range lo hi =
      let (low, high, opens, above, below) = three-Opens n rest from range in
      cut_second n 0 (224 + n / 4096) (n / 4096) (n / 64) low high opens above below
  three_bytes (suc (suc (suc k))) from range lo hi = absurd (omega arith)

  four_bytes :
      (k : ℕ)
      → 65536 ≤ n
      → n < 1114112
      → 0 < k
      → k < 4
      → codes_from ready (
          take k (
            (240 + n / 262144)
            ∷ (128 + n / 4096 % 64)
            ∷ (128 + n / 64 % 64)
            ∷ (128 + n % 64)
            ∷ rest))
        ≡ none
  four_bytes zero from to lo hi = absurd (omega arith)
  four_bytes (suc zero) from to lo hi =
      let (low, high, opens, above, below) = four-Opens n rest from to in
      unfinished (240 + n / 262144) 2 (n / 262144) low high opens
  four_bytes (suc (suc zero)) from to lo hi =
      let (low, high, opens, above, below) = four-Opens n rest from to in
      cut_second n 1 (240 + n / 262144) (n / 262144) (n / 4096) low high opens above below
  four_bytes (suc (suc (suc zero))) from to lo hi =
      let (low, high, opens, above, below) = four-Opens n rest from to in
      cut_third n 1 (240 + n / 262144) (n / 262144) (n / 4096) low high opens above below 0 (n / 64)
        refl
  four_bytes (suc (suc (suc (suc k)))) from to lo hi = absurd (omega arith)

  cut_code :
      (k : ℕ)
      → (n < 55296) ⊎ ((57343 < n) × (n < 1114112))
      → 0 < k
      → k < length (encode_code n)
      → codes_from ready (take k (encode_code n ++ rest)) ≡ none
  unfolding encode_code
  cut_code k range lo hi = elim (Bool-cases (ltb n 128)) [
    | inl a ↦ absurd (ground (arith, hi, a))
    | inr a ↦ elim (Bool-cases (ltb n 2048)) [
      | inl b ↦ rw (a, b) (two_bytes k (ground arith) (ltb→lt n 2048 b) lo (rw (a, b) at hi))
      | inr b ↦ elim (Bool-cases (ltb n 65536)) [
        | inl c ↦ rw (a, b, c) (three_bytes k (ground arith) (ground arith) lo (rw (a, b, c) at hi))
        | inr c ↦ rw (a, b, c) (four_bytes k (ground arith) (ground arith) lo (rw (a, b, c) at hi))
      ]
    ]
  ]

-- Whole characters before what is cut off change nothing.
cut_after :
    (p : String) (bs : List ℕ)
    → codes_from ready bs ≡ none
    → codes_from ready (encode p ++ bs) ≡ none
unfolding encode
cut_after Text.[] bs h = h
cut_after (Text.◌∷◌ c s) bs h =
    ap (codes_from ready) (append_assoc (encode_code (code c)) (encode s) bs)
    ∙ codes_from-encode_code (code c) (encode s ++ bs) (code_range c)
    ∙ ap (Option.map (λ codes. code c ∷ codes)) (cut_after s bs h)

take-append : (xs ys : List ℕ) (k : ℕ) → take (length xs + k) (xs ++ ys) ≡ xs ++ take k ys
take-append [] ys k = rw (zero-add k) refl
take-append (x ∷ xs) ys k = rw (suc-add (length xs) k) (ap (λ l. x ∷ l) (take-append xs ys k))

decode_none : (bs : List ℕ) → codes_from ready bs ≡ none → decode bs ≡ none
unfolding decode
decode_none bs h = ground (arith, h)

-- The first bytes of the encoding of a text, of which the last character is cut, are no encoding.
pub decode_cut :
    (p : String) (c : Char) (rest : List ℕ) (size : ℕ)
    → length (encode p) < size
    → size < length (encode p) + length (encode_code (code c))
    → decode (take size (encode p ++ (encode_code (code c) ++ rest))) ≡ none
decode_cut p c rest size lo hi =
    let k = size - length (encode p) in
    let whole : size ≡ length (encode p) + k = omega arith in
    let none_read =
      cut_after p (take k (encode_code (code c) ++ rest))
        (cut_code (code c) rest k (code_range c) (omega arith) (omega arith)) in
    rw (whole, take-append (encode p) (encode_code (code c) ++ rest) k)
      (decode_none (encode p ++ take k (encode_code (code c) ++ rest)) none_read)
