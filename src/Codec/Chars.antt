-- ===== src/Codec/Chars.antt =====
-- Python's `chr`: the character of a code point.
use Prim.Native.Nat.{compare, Ordering}
use Prim.Native.Char.{Char, char, code, IsScalar, IsLt}
use native.Mathlib.Omega.{compare-lt}
use fastapi_auth_api.Base.{
  ℕ, ◌<◌, ◌≡◌, ◌⊎◌, inl, inr, refl, ap, true, Option, none, some, is_some, arith,
}
use mathlib.Core.Option

-- `IsScalar n` is three comparisons, under these two helpers.
abbrev Both : Ordering → Ordering → Type 0
Both Ordering.lt o = IsLt o
Both Ordering.eq _ = ⊥
Both Ordering.gt _ = ⊥

abbrev Scalar : Ordering → Ordering → Ordering → Type 0
Scalar Ordering.lt _ _ = Unit
Scalar Ordering.eq o p = Both o p
Scalar Ordering.gt o p = Both o p

abbrev when_lt : (o : Ordering) → Option (IsLt o)
when_lt Ordering.lt = some tt
when_lt Ordering.eq = none
when_lt Ordering.gt = none

abbrev when_both : (o p : Ordering) → Option (Both o p)
when_both Ordering.lt p = when_lt p
when_both Ordering.eq p = none
when_both Ordering.gt p = none

abbrev when_scalar : (o p q : Ordering) → Option (Scalar o p q)
when_scalar Ordering.lt p q = some tt
when_scalar Ordering.eq p q = when_both p q
when_scalar Ordering.gt p q = when_both p q

when_lt_found : (o : Ordering) (h : IsLt o) → when_lt o ≡ some h
when_lt_found Ordering.lt h = refl
when_lt_found Ordering.eq h = absurd h
when_lt_found Ordering.gt h = absurd h

when_both_found : (o p : Ordering) (h : Both o p) → when_both o p ≡ some h
when_both_found Ordering.lt p h = when_lt_found p h
when_both_found Ordering.eq p h = absurd h
when_both_found Ordering.gt p h = absurd h

when_scalar_found : (o p q : Ordering) (h : Scalar o p q) → when_scalar o p q ≡ some h
when_scalar_found Ordering.lt p q h = refl
when_scalar_found Ordering.eq p q h = when_both_found p q h
when_scalar_found Ordering.gt p q h = when_both_found p q h

abbrev is_scalar : (n : ℕ) → Option (IsScalar n)
is_scalar n = when_scalar (compare n 55296) (compare 57343 n) (compare n 1114112)

-- `none` for a number that is no code point of a character.
unfoldable pub chr : ℕ → Option Char
chr n = Option.map (char n) (is_scalar n)

pub chr-code : (c : Char) → chr (code c) ≡ some c
unfolding chr
chr-code (char n p) =
    ap (Option.map (char n))
      (when_scalar_found (compare n 55296) (compare 57343 n) (compare n 1114112) p)

abbrev code_or_zero : Option Char → ℕ
code_or_zero none = 0
code_or_zero (some c) = code c

found_code :
    (n : ℕ) (o : Option (IsScalar n))
    → is_some o ≡ true
    → (c : Char) × (Option.map (char n) o ≡ some c) × (code c ≡ n)
found_code n none h = absurd (ground arith)
found_code n (some p) h = (char n p, refl, refl)

below : (o p q : Ordering) → o ≡ Ordering.lt → is_some (when_scalar o p q) ≡ true
below Ordering.lt p q h = refl
below Ordering.eq p q h = absurd (ground arith)
below Ordering.gt p q h = absurd (ground arith)

-- A small number is the code point of a character.
pub chr_small : (n : ℕ) → n < 55296 → (c : Char) × (chr n ≡ some c) × (code c ≡ n)
unfolding chr
chr_small n h =
    found_code n (is_scalar n)
      (below (compare n 55296) (compare 57343 n) (compare n 1114112) (ground arith))

lt_of : (o : Ordering) → IsLt o → o ≡ Ordering.lt
lt_of Ordering.lt h = refl
lt_of Ordering.eq h = absurd h
lt_of Ordering.gt h = absurd h

both_lt_of : (o p : Ordering) → Both o p → (o ≡ Ordering.lt) × (p ≡ Ordering.lt)
both_lt_of Ordering.lt p h = (refl, lt_of p h)
both_lt_of Ordering.eq p h = absurd h
both_lt_of Ordering.gt p h = absurd h

in_scalar :
    (o p q : Ordering) → Scalar o p q → (o ≡ Ordering.lt) ⊎ ((p ≡ Ordering.lt) × (q ≡ Ordering.lt))
in_scalar Ordering.lt p q h = inl refl
in_scalar Ordering.eq p q h = inr (both_lt_of p q h)
in_scalar Ordering.gt p q h = inr (both_lt_of p q h)

pub code_range : (c : Char) → (code c < 55296) ⊎ ((57343 < code c) × (code c < 1114112))
code_range (char n p) = elim (in_scalar (compare n 55296) (compare 57343 n) (compare n 1114112) p) [
  | inl low ↦ inl (compare-lt n 55296 low)
  | inr (a, b) ↦ inr (compare-lt 57343 n a, compare-lt n 1114112 b)
]
