-- ===== src/Tests/Schemas.antt =====
-- Passwords that a body may hold, and others.
use Prim.Native.String.{[], ◌∷◌}
use fastapi_auth_api.Base.{◌≡◌, refl, str_eq, ◌||◌}
use fastapi_auth_api.Schemas.{
  Characters, valid, invalid, new_password_field, user_create, password_length,
  validate_password_strength,
}

abbrev some_characters : Characters
some_characters = record {
  is_lower = λ c. str_eq (c ∷ []) "a" || str_eq (c ∷ []) "b";
  is_upper = λ c. str_eq (c ∷ []) "A" || str_eq (c ∷ []) "B";
  is_digit = λ c. str_eq (c ∷ []) "1" || str_eq (c ∷ []) "2";
}

strong : new_password_field some_characters valid "aAb1bb2B" ≡ valid "aAb1bb2B"
unfolding new_password_field password_length validate_password_strength
strong = refl

short :
    new_password_field some_characters valid "aA1"
    ≡ invalid "String should have at least 8 characters"
unfolding new_password_field password_length validate_password_strength
short = refl

no_number :
    user_create some_characters valid "jane@x.org" "aAbBaAbB"
    ≡ invalid "Password must contain a number"
unfolding user_create new_password_field password_length validate_password_strength
no_number = refl
