-- ===== src/Schemas/Strength.antt =====
-- Which new passwords the bodies of requests may hold.
use fastapi_auth_api.Base.{◌≤◌, ◌≡◌, refl, String, true, len, arith, ◌↔◌, ap, ◌∙◌, sym}
use fastapi_auth_api.Schemas.{
  Characters, Validated, valid, invalid, any_character, and_then, password_length,
  validate_password_strength, new_password_field, UserCreate, user_create, password_change,
  reset_password_request,
}

and_then_valid :
    {A B : Type 0} (x : Validated A) (f : A → Validated B) (b : B)
    → and_then x f ≡ valid b
    → (a : A) × (x ≡ valid a) × (f a ≡ valid b)
and_then_valid (valid a) f b h = (a, refl, h)
and_then_valid (invalid e) f b h = ground arith

abbrev password_or : UserCreate → Validated UserCreate → String
password_or a (valid b) = b.password
password_or a (invalid e) = a.password

password_of : {a b : UserCreate} → Validated.valid a ≡ valid b → a.password ≡ b.password
password_of {a} h = ap (λ v. password_or a v) h

module _ (chars : Characters) (email_str : String → Validated String) where
  -- 8 to 128 characters, among them a lower-case letter, an upper-case letter and a digit.
  abbrev pub IsStrong : String → Type 0
  IsStrong password =
      (8 ≤ len password)
      × (len password ≤ 128)
      × (any_character chars.is_lower password ≡ true)
      × (any_character chars.is_upper password ≡ true)
      × (any_character chars.is_digit password ≡ true)

  -- A new password passes exactly when it is strong, and as it is.
  pub new_password_field_iff :
      (password p : String)
      → (new_password_field chars email_str password ≡ valid p)
        ↔ ((p ≡ password) × IsStrong password)
  unfolding new_password_field password_length validate_password_strength
  new_password_field_iff password p = (λ h. ground arith, λ h. ground arith)

  -- A body that holds nothing else that is tested.
  with_password_iff :
      {B : Type 0} (body : String → B) (password : String)
      → (and_then (new_password_field chars email_str password) (λ p. valid (body p))
          ≡ valid (body password))
        ↔ IsStrong password
  with_password_iff body password = (
    λ h.
        let (p, passed, _) =
          and_then_valid (new_password_field chars email_str password) (λ p. valid (body p))
            (body password) h in
        ((new_password_field_iff password p).0 passed).1,
    λ h.
        ap (λ v. and_then v (λ p. valid (body p)))
          ((new_password_field_iff password password).1 (refl, h)),
  )

  -- A body that is let through, to register, to change the password or to reset it, has a strong
  -- new password, the given one; to change or to reset it, every strong password is let through.
  pub bodies-IsStrong :
      (given password : String)
      → ((b : UserCreate)
          → user_create chars email_str given password ≡ valid b
          → (b.password ≡ password) × IsStrong password)
        × ((password_change chars email_str given password
              ≡ valid (record { current_password = given; new_password = password }))
            ↔ IsStrong password)
        × ((reset_password_request chars email_str given password
              ≡ valid (record { token = given; new_password = password }))
            ↔ IsStrong password)
  unfolding user_create password_change reset_password_request
  bodies-IsStrong given password = (
    λ b h.
        let (e, _, h') =
          and_then_valid (email_str given)
            (λ e.
              and_then (new_password_field chars email_str password)
                (λ p. valid (record { email = e; password = p })))
            b h in
        let (p, passed, built) =
          and_then_valid (new_password_field chars email_str password)
            (λ p. valid (record { email = e; password = p })) b h' in
        let (same, strong) = (new_password_field_iff password p).0 passed in
        (sym (password_of built) ∙ same, strong),
    with_password_iff (λ p. record { current_password = given; new_password = p }) password,
    with_password_iff (λ p. record { token = given; new_password = p }) password,
  )
