-- ===== src/Codec/Utf8/Steps.antt =====
-- One character of UTF-8: reading its bytes gives its code point.
use mathlib.Core.Option
use fastapi_auth_api.Base.{
  ℕ, suc, ◌+◌, ◌*◌, ◌/◌, ◌%◌, ◌≤◌, ◌<◌, ◌≡◌, Bool-cases, ltb→lt, ◌⊎◌, inl, inr, refl, ◌∙◌, Option,
  none, some, List, [], ◌∷◌, ◌++◌, arith, ltb, ◌==◌,
}
use fastapi_auth_api.Codec.Utf8.{
  Reading, ready, within, read_byte, first_byte, codes_from, encode_code,
}

pub step :
    (reading next : Reading) (b : ℕ) (out bs : List ℕ)
    → read_byte reading b ≡ some (next, out)
    → codes_from reading (b ∷ bs) ≡ Option.map (λ codes. out ++ codes) (codes_from next bs)
unfolding codes_from
step ready next b out bs h = ground (arith, h)
step (within more bits low high) next b out bs h = ground (arith, h)

pub same_option : (o : Option (List ℕ)) → Option.map (λ codes. codes) o ≡ o
same_option none = refl
same_option (some codes) = refl

pub silent :
    (reading next : Reading) (b : ℕ) (bs : List ℕ)
    → read_byte reading b ≡ some (next, [])
    → codes_from reading (b ∷ bs) ≡ codes_from next bs
silent reading next b bs h = step reading next b [] bs h ∙ same_option (codes_from next bs)

pub last_byte :
    (n bits low high : ℕ)
    → bits * 64 + n % 64 ≡ n
    → low ≤ 128 + n % 64
    → 128 + n % 64 ≤ high
    → read_byte (within 0 bits low high) (128 + n % 64) ≡ some (ready, n ∷ [])
unfolding read_byte
last_byte n bits low high e from to = ground arith

pub middle_byte :
    (more n bits low high : ℕ)
    → low ≤ 128 + n % 64
    → 128 + n % 64 ≤ high
    → read_byte (within (suc more) bits low high) (128 + n % 64)
      ≡ some (within more (bits * 64 + n % 64) 128 191, [])
unfolding read_byte
middle_byte more n bits low high from to = ground arith

module _ (n : ℕ) (bs : List ℕ) where
  of_two :
      128 ≤ n
      → n < 2048
      → codes_from ready ((192 + n / 64) ∷ (128 + n % 64) ∷ bs)
        ≡ Option.map (λ codes. n ∷ codes) (codes_from ready bs)
  unfolding read_byte first_byte
  of_two from to =
      silent ready (within 0 (n / 64) 128 191) (192 + n / 64) ((128 + n % 64) ∷ bs) (ground arith)
      ∙ step (within 0 (n / 64) 128 191) ready (128 + n % 64) (n ∷ []) bs
          (last_byte n (n / 64) 128 191 (omega arith) (omega arith) (omega arith))

  -- The first byte of three or four, and that the second is in the range it sets.
  abbrev pub Opens : ℕ → ℕ → ℕ → ℕ → Type 0
  Opens more first bits second =
      (low : ℕ) × (high : ℕ) × (first_byte first ≡ some (within more bits low high, []))
      × (low ≤ second)
      × (second ≤ high)

  pub three-Opens :
      2048 ≤ n
      → (n < 55296) ⊎ ((57343 < n) × (n < 65536))
      → Opens 1 (224 + n / 4096) (n / 4096) (128 + n / 64 % 64)
  unfolding first_byte
  three-Opens from range = elim (Bool-cases (ltb n 4096)) [
    | inl a ↦ (160, 191, ground arith, omega (arith, ltb→lt n 4096 a), omega arith)
    | inr a ↦ elim (Bool-cases (n / 4096 == 13)) [
      | inl b ↦ (128, 159, ground arith, omega arith, ground arith)
      | inr b ↦ (128, 191, ground arith, omega arith, omega arith)
    ]
  ]

  pub four-Opens :
      65536 ≤ n → n < 1114112 → Opens 2 (240 + n / 262144) (n / 262144) (128 + n / 4096 % 64)
  unfolding first_byte
  four-Opens from to = elim (Bool-cases (ltb n 262144)) [
    | inl a ↦ (144, 191, ground arith, omega (arith, ltb→lt n 262144 a), omega arith)
    | inr a ↦ elim (Bool-cases (n / 262144 == 4)) [
      | inl b ↦ (128, 143, ground arith, omega arith, ground arith)
      | inr b ↦ (128, 191, ground arith, omega arith, omega arith)
    ]
  ]

  of_three :
      2048 ≤ n
      → (n < 55296) ⊎ ((57343 < n) × (n < 65536))
      → codes_from ready ((224 + n / 4096) ∷ (128 + n / 64 % 64) ∷ (128 + n % 64) ∷ bs)
        ≡ Option.map (λ codes. n ∷ codes) (codes_from ready bs)
  unfolding read_byte
  of_three from range =
      let (low, high, opens, above, below) = three-Opens from range in
      let rest = (128 + n % 64) ∷ bs in
      silent ready (within 1 (n / 4096) low high) (224 + n / 4096) ((128 + n / 64 % 64) ∷ rest)
        opens
      ∙ silent (within 1 (n / 4096) low high) (within 0 (n / 4096 * 64 + n / 64 % 64) 128 191)
          (128 + n / 64 % 64) rest (middle_byte 0 (n / 64) (n / 4096) low high above below)
      ∙ step (within 0 (n / 4096 * 64 + n / 64 % 64) 128 191) ready (128 + n % 64) (n ∷ []) bs (
          last_byte n (n / 4096 * 64 + n / 64 % 64) 128 191 (omega arith) (omega arith)
            (omega arith))

  of_four :
      65536 ≤ n
      → n < 1114112
      → codes_from ready
          ((240 + n / 262144) ∷ (128 + n / 4096 % 64) ∷ (128 + n / 64 % 64) ∷ (128 + n % 64) ∷ bs)
        ≡ Option.map (λ codes. n ∷ codes) (codes_from ready bs)
  unfolding read_byte
  of_four from to =
      let (low, high, opens, above, below) = four-Opens from to in
      let rest = (128 + n % 64) ∷ bs in
      let twelve = n / 262144 * 64 + n / 4096 % 64 in
      silent ready (within 2 (n / 262144) low high) (240 + n / 262144)
        ((128 + n / 4096 % 64) ∷ (128 + n / 64 % 64) ∷ rest) opens
      ∙ silent (within 2 (n / 262144) low high) (within 1 twelve 128 191) (128 + n / 4096 % 64)
          ((128 + n / 64 % 64) ∷ rest) (middle_byte 1 (n / 4096) (n / 262144) low high above below)
      ∙ silent (within 1 twelve 128 191) (within 0 (twelve * 64 + n / 64 % 64) 128 191)
          (128 + n / 64 % 64) rest
          (middle_byte 0 (n / 64) twelve 128 191 (omega arith) (omega arith))
      ∙ step (within 0 (twelve * 64 + n / 64 % 64) 128 191) ready (128 + n % 64) (n ∷ []) bs (
          last_byte n (twelve * 64 + n / 64 % 64) 128 191 (omega arith) (omega arith) (omega arith))

  of_one :
      n < 128 → codes_from ready (n ∷ bs) ≡ Option.map (λ codes. n ∷ codes) (codes_from ready bs)
  unfolding read_byte first_byte
  of_one to = step ready ready n (n ∷ []) bs (ground arith)

pub codes_from-encode_code :
    (n : ℕ) (bs : List ℕ)
    → (n < 55296) ⊎ ((57343 < n) × (n < 1114112))
    → codes_from ready (encode_code n ++ bs) ≡ Option.map (λ codes. n ∷ codes) (codes_from ready bs)
unfolding codes_from encode_code read_byte first_byte
codes_from-encode_code n bs range = elim (Bool-cases (ltb n 128)) [
  | inl a ↦ rw a (of_one n bs (ltb→lt n 128 a))
  | inr a ↦ elim (Bool-cases (ltb n 2048)) [
    | inl b ↦ rw (a, b) (of_two n bs (ground arith) (ltb→lt n 2048 b))
    | inr b ↦ elim (Bool-cases (ltb n 65536)) [
      | inl c ↦ rw (a, b, c) (of_three n bs (ground arith) (ground arith))
      | inr c ↦ rw (a, b, c) (of_four n bs (ground arith) (ground arith))
    ]
  ]
]
