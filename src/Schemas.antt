-- ===== src/Schemas.antt =====
-- app/schemas/user.py and app/schemas/password_reset.py: the bodies with a new password, and what
-- pydantic refuses of them.
pub mod Strength
use Prim.Native.Char.{Char}
use Prim.Native.String.{[], ◌∷◌}
use fastapi_auth_api.Base.{String, Bool, true, false, not, ◌||◌, ltb, if◌then◌else◌, len}

-- `str.islower`, `str.isupper` and `str.isdigit` of one character.
pub record Characters : Type 0 where
  pub is_lower : Char → Bool
  pub is_upper : Char → Bool
  pub is_digit : Char → Bool

-- A value, or the text of a validation error.
pub data Validated (A : Type 0) : Type 0 where
  valid : A → Validated A
  invalid : String → Validated A

-- `any(test(character) for character in text)`
abbrev pub any_character : (Char → Bool) → String → Bool
any_character test [] = false
any_character test (c ∷ s) = test c || any_character test s

abbrev pub and_then : {A B : Type 0} → Validated A → (A → Validated B) → Validated B
and_then (valid a) f = f a
and_then (invalid e) f = invalid e

-- `Field(min_length=8, max_length=128)`
unfoldable pub password_length : String → Validated String
password_length password =
    if ltb (len password) 8
    then invalid "String should have at least 8 characters"
    else (if ltb 128 (len password)
        then invalid "String should have at most 128 characters"
        else valid password)

pub record UserCreate : Type 0 where
  pub email : String
  pub password : String

pub record PasswordChange : Type 0 where
  pub current_password : String
  pub new_password : String

pub record ResetPasswordRequest : Type 0 where
  pub token : String
  pub new_password : String

-- `EmailStr` is a parameter, the address in the form that email-validator gives it.
module _ (chars : Characters) (email_str : String → Validated String) where
  unfoldable pub validate_password_strength : String → Validated String
  validate_password_strength password =
      if not (any_character chars.is_lower password)
      then invalid "Password must contain a lowercase letter"
      else (if not (any_character chars.is_upper password)
          then invalid "Password must contain an uppercase letter"
          else (if not (any_character chars.is_digit password)
              then invalid "Password must contain a number"
              else valid password))

  -- The field validator runs on what the constraints of the field let through.
  unfoldable pub new_password_field : String → Validated String
  unfolding password_length validate_password_strength
  new_password_field password = and_then (password_length password) validate_password_strength

  unfoldable pub user_create : String → String → Validated UserCreate
  unfolding new_password_field
  user_create email password = and_then (email_str email) (λ e.
      and_then (new_password_field password) (λ p. valid (record { email = e; password = p })))

  unfoldable pub password_change : String → String → Validated PasswordChange
  unfolding new_password_field
  password_change current_password new_password =
      and_then (new_password_field new_password)
        (λ p. valid (record { current_password = current_password; new_password = p }))

  unfoldable pub reset_password_request : String → String → Validated ResetPasswordRequest
  unfolding new_password_field
  reset_password_request token new_password =
      and_then (new_password_field new_password)
        (λ p. valid (record { token = token; new_password = p }))
