-- ===== src/Codec/Base64.antt =====
-- `base64.urlsafe_b64encode` and `base64.urlsafe_b64decode`, on lists of bytes. The decoder is that of
-- `binascii`, which skips what is no letter and stops at the padding.
use mathlib.Core.Option
use mathlib.Core.Bool
use fastapi_auth_api.Base.{
  ℕ, zero, suc, ◌+◌, ◌-◌, ◌*◌, ◌/◌, ◌%◌, ◌≤◌, ◌<◌, ◌≡◌, refl, ap, Option, none, some, List, [], ◌∷◌,
  ◌++◌, arith, ltb, leb, ◌==◌, ◌&&◌, ◌||◌, if◌then◌else◌, All,
}

-- The character of six bits: A to Z, a to z, 0 to 9, `-` and `_`.
unfoldable pub letter : ℕ → ℕ
letter v =
    if ltb v 26
    then 65 + v
    else if ltb v 52
    then 97 + (v - 26)
    else if ltb v 62
    then 48 + (v - 52)
    else if v == 62
    then 45
    else 95

abbrev pad : ℕ
pad = 61

unfoldable pub urlsafe_b64encode : List ℕ → List ℕ
unfolding letter
urlsafe_b64encode [] = []
urlsafe_b64encode (a ∷ []) = letter (a / 4) ∷ letter (a % 4 * 16) ∷ pad ∷ pad ∷ []
urlsafe_b64encode (a ∷ b ∷ []) =
    letter (a / 4) ∷ letter (a % 4 * 16 + b / 16) ∷ letter (b % 16 * 4) ∷ pad ∷ []
urlsafe_b64encode (a ∷ b ∷ c ∷ rest) =
    letter (a / 4)
    ∷ letter (a % 4 * 16 + b / 16)
    ∷ letter (b % 16 * 4 + c / 64)
    ∷ letter (c % 64)
    ∷ urlsafe_b64encode rest

-- The six bits of a letter; `+` and `/` are letters too, since `-` and `_` become them first.
unfoldable pub sextet : ℕ → Option ℕ
sextet c =
    if leb 65 c && leb c 90
    then some (c - 65)
    else if leb 97 c && leb c 122
    then some (c - 97 + 26)
    else if leb 48 c && leb c 57
    then some (c - 48 + 52)
    else if (c == 45) || (c == 43)
    then some 62
    else if (c == 95) || (c == 47)
    then some 63
    else none

-- The position in a group of four, the bits that are left, and the bytes that a letter completes.
abbrev pub next_position : ℕ → ℕ
next_position zero = 1
next_position (suc zero) = 2
next_position (suc (suc zero)) = 3
next_position (suc (suc (suc n))) = 0

abbrev pub left_bits : ℕ → ℕ → ℕ
left_bits zero v = v
left_bits (suc zero) v = v % 16
left_bits (suc (suc zero)) v = v % 4
left_bits (suc (suc (suc n))) v = 0

abbrev pub completed : ℕ → ℕ → ℕ → List ℕ
completed zero left v = []
completed (suc zero) left v = (left * 4 + v / 16) ∷ []
completed (suc (suc zero)) left v = (left * 16 + v / 4) ∷ []
completed (suc (suc (suc n))) left v = (left * 64 + v) ∷ []

-- `binascii.a2b_base64`, from a position in a group, with the bits left and the number of pads
-- seen; `none` is a binascii.Error, which is a ValueError.
unfoldable pub bytes_from : ℕ → ℕ → ℕ → List ℕ → Option (List ℕ)
unfolding sextet
bytes_from position left pads [] = if position == 0 then some [] else none
bytes_from position left pads (c ∷ cs) =
    if c == pad
    then if leb 2 position
      then if leb 4 (position + suc pads) then some [] else bytes_from position left (suc pads) cs
      else bytes_from position left pads cs
    else elim (sextet c) [
      | none ↦ bytes_from position left pads cs
      | some v ↦
          Option.map (λ bs. completed position left v ++ bs)
            (bytes_from (next_position position) (left_bits position v) 0 cs)
    ]

unfoldable pub urlsafe_b64decode : List ℕ → Option (List ℕ)
unfolding bytes_from
urlsafe_b64decode cs = bytes_from 0 0 0 cs

sextet-letter : (v : ℕ) → v < 64 → (sextet (letter v) ≡ some v) × ((letter v == pad) ≡ Bool.false)
unfolding sextet letter
sextet-letter v h = ground arith

letter_read :
    (position left pads v : ℕ) (cs : List ℕ)
    → v < 64
    → bytes_from position left pads (letter v ∷ cs)
      ≡ Option.map
          (λ bs. completed position left v ++ bs)
          (bytes_from (next_position position) (left_bits position v) 0 cs)
unfolding bytes_from
letter_read position left pads v cs h =
    let (bits, no_pad) = sextet-letter v h in rw (no_pad, bits) refl

pad_stops :
    (position left pads : ℕ) (cs : List ℕ)
    → 2 ≤ position
    → 3 ≤ position + pads
    → bytes_from position left pads (pad ∷ cs) ≡ some []
unfolding bytes_from
pad_stops position left pads cs h h' = ground arith

pad_counts : (left : ℕ) (cs : List ℕ) → bytes_from 2 left 0 (pad ∷ cs) ≡ bytes_from 2 left 1 cs
unfolding bytes_from
pad_counts left cs = refl

module _ (a : ℕ) (a_small : a < 256) where
  group_of_one : bytes_from 0 0 0 (urlsafe_b64encode (a ∷ [])) ≡ some (a ∷ [])
  unfolding urlsafe_b64encode
  group_of_one =
      rw
        (
          letter_read 0 0 0 (a / 4) (letter (a % 4 * 16) ∷ pad ∷ pad ∷ []) (omega arith),
          letter_read 1 (a / 4) 0 (a % 4 * 16) (pad ∷ pad ∷ []) (omega arith),
          pad_counts (a % 4 * 16 % 16) (pad ∷ []),
          pad_stops 2 (a % 4 * 16 % 16) 1 [] (omega arith) (omega arith),
        )
        (ap (λ x. some (x ∷ [])) (omega arith))

  module _ (b : ℕ) (b_small : b < 256) where
    abbrev second : ℕ
    second = a % 4 * 16 + b / 16

    first_byte : a / 4 * 4 + second / 16 ≡ a
    first_byte = omega arith

    second_byte : (low : ℕ) → low < 4 → second % 16 * 16 + (b % 16 * 4 + low) / 4 ≡ b
    second_byte low h = omega arith

    group_of_two : bytes_from 0 0 0 (urlsafe_b64encode (a ∷ b ∷ [])) ≡ some (a ∷ b ∷ [])
    unfolding urlsafe_b64encode
    group_of_two =
        rw
          (
            letter_read 0 0 0 (a / 4) (letter second ∷ letter (b % 16 * 4) ∷ pad ∷ [])
                (omega arith),
            letter_read 1 (a / 4) 0 second (letter (b % 16 * 4) ∷ pad ∷ []) (omega arith),
            letter_read 2 (second % 16) 0 (b % 16 * 4) (pad ∷ []) (omega arith),
            pad_stops 3 (b % 16 * 4 % 4) 0 [] (omega arith) (omega arith),
            first_byte,
          )
          (ap (λ x. some (a ∷ x ∷ [])) (omega arith))

    module _ (c : ℕ) (c_small : c < 256) (rest : List ℕ) where
      abbrev third : ℕ
      third = b % 16 * 4 + c / 64

      third_byte : third % 4 * 64 + c % 64 ≡ c
      third_byte = omega arith

      group_of_three :
          bytes_from 0 0 0 (urlsafe_b64encode rest) ≡ some rest
          → bytes_from 0 0 0 (urlsafe_b64encode (a ∷ b ∷ c ∷ rest)) ≡ some (a ∷ b ∷ c ∷ rest)
      unfolding urlsafe_b64encode
      group_of_three later =
          rw
            (
              letter_read 0 0 0 (a / 4)
                  (letter second ∷ letter third ∷ letter (c % 64) ∷ urlsafe_b64encode rest)
                  (omega arith),
              letter_read 1 (a / 4) 0 second
                  (letter third ∷ letter (c % 64) ∷ urlsafe_b64encode rest) (omega arith),
              letter_read 2 (second % 16) 0 third (letter (c % 64) ∷ urlsafe_b64encode rest)
                  (omega arith),
              letter_read 3 (third % 4) 0 (c % 64) (urlsafe_b64encode rest) (omega arith),
              later,
              first_byte,
              second_byte (c / 64) (omega arith),
              third_byte,
            )
            refl

empty_group : bytes_from 0 0 0 (urlsafe_b64encode []) ≡ some []
unfolding bytes_from urlsafe_b64encode
empty_group = refl

-- Decoding what was encoded gives the bytes back.
pub urlsafe_b64decode-urlsafe_b64encode :
    (bs : List ℕ) → All (λ b. b < 256) bs → urlsafe_b64decode (urlsafe_b64encode bs) ≡ some bs
unfolding urlsafe_b64decode
urlsafe_b64decode-urlsafe_b64encode [] small = empty_group
urlsafe_b64decode-urlsafe_b64encode (a ∷ []) (a_small, small) = group_of_one a a_small
urlsafe_b64decode-urlsafe_b64encode (a ∷ b ∷ []) (a_small, (b_small, small)) =
    group_of_two a a_small b b_small
urlsafe_b64decode-urlsafe_b64encode (a ∷ b ∷ c ∷ rest) (a_small, (b_small, (c_small, small))) =
    group_of_three a a_small b b_small c c_small rest
      (urlsafe_b64decode-urlsafe_b64encode rest small)
