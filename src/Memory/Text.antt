-- ===== src/Memory/Text.antt =====
-- Texts of the in-memory runtime: a number is written as so many digits 1.
use Prim.Native.Char.{Char}
use Prim.Native.String.{[], ◌∷◌}
use fastapi_auth_api.Base.{
  ℕ, zero, suc, ◌≡◌, refl, sym, ap, ◌∙◌, String, str_eq, if◌then◌else◌, inl, inr, Bool-cases,
}

abbrev pub size : String → ℕ
size [] = 0
size (c ∷ s) = suc (size s)

abbrev pub char_one : Char
char_one = "1"

abbrev pub unary : ℕ → String
unary zero = []
unary (suc n) = char_one ∷ unary n

pub size-unary : (n : ℕ) → size (unary n) ≡ n
size-unary zero = refl
size-unary (suc n) = ap suc (size-unary n)

pub unary-injective : (m n : ℕ) → unary m ≡ unary n → m ≡ n
unary-injective m n h = sym (size-unary m) ∙ ap size h ∙ size-unary n

-- A fragment of lower-casing: one address.
abbrev pub lower : String → String
lower s = if str_eq s "Jane@x.org" then "jane@x.org" else s

pub lower_idem : (s : String) → lower (lower s) ≡ lower s
lower_idem s = elim (Bool-cases (str_eq s "Jane@x.org")) [ inl e ↦ rw e | inr e ↦ rw (e, e) ]
