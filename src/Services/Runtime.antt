-- ===== src/Services/Runtime.antt =====
-- Password hashing (pwdlib), identifiers (uuid) and texts of the Python runtime.
use fastapi_auth_api.Base.{ℕ, ◌≡◌, String, Bool, true, Option, some, ℤ, pos}

-- `hash` draws a salt, so the number of the draw is an argument.
pub record Passwords : Type 0 where
  pub hash : ℕ → String → String
  pub verify : String → String → Bool
  pub verify-hash : (salt : ℕ) (password : String) → verify password (hash salt password) ≡ true

-- `uuid4` is given the number of the draw; `int` is `none` where Python raises a ValueError.
pub record Runtime : Type 0 where
  pub uuid4 : ℕ → String
  pub uuid4_injective : (m n : ℕ) → uuid4 m ≡ uuid4 n → m ≡ n
  pub lower : String → String
  pub lower_idem : (s : String) → lower (lower s) ≡ lower s
  pub upper : String → String
  pub strip : String → String
  pub str : ℕ → String
  pub int : String → Option ℤ
  pub int-str : (n : ℕ) → int (str n) ≡ some (pos n)
