-- ===== src/Base/Texts.antt =====
-- Python's operations on texts, by their characters.
use Prim.Native.Char.{Char}
use Prim.Native.String.{String, [], ◌∷◌}
use Prim.Native.Nat.{ℕ, suc}
use mathlib.Core.Bool.{Bool, true, false}
use mathlib.Core.List.{List}
use mathlib.Core.Option.{Option, none, some}
use text.Mathlib.Text.{◌==◌ as str_eq}
use fastapi_auth_api.Base.Tests.{if◌then◌else◌}

-- What follows a prefix, in a text that starts with it.
abbrev pub after_prefix : String → String → Option String
after_prefix [] s = some s
after_prefix (c ∷ p) [] = none
after_prefix (c ∷ p) (d ∷ s) = if str_eq (c ∷ []) (d ∷ []) then after_prefix p s else none

-- `s.startswith(prefix)`
abbrev pub starts_with : String → String → Bool
starts_with [] s = true
starts_with (c ∷ p) [] = false
starts_with (c ∷ p) (d ∷ s) = if str_eq (c ∷ []) (d ∷ []) then starts_with p s else false

-- `len(s)`
abbrev pub len : String → ℕ
len [] = 0
len (c ∷ s) = suc (len s)

abbrev push : Char → List String → List String
push c List.[] = List.◌∷◌ (c ∷ []) List.[]
push c (List.◌∷◌ x xs) = List.◌∷◌ (c ∷ x) xs

-- `s.split(separator)`, for a separator of one character.
abbrev pub split : String → String → List String
split separator [] = List.◌∷◌ "" List.[]
split separator (c ∷ s) =
    let later = split separator s in
    if str_eq (c ∷ []) separator then List.◌∷◌ "" later else push c later
