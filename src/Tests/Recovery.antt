-- ===== src/Tests/Recovery.antt =====
-- Registration, verification and password reset.
use fastapi_auth_api.Base.{suc, ◌≡◌, refl, true, false, arith, [], ◌∷◌}
use fastapi_auth_api.Http.{ok, err, http}
use fastapi_auth_api.Models.{User}
use fastapi_auth_api.Services.{World}
use fastapi_auth_api.Services.Jwt.{Payload}
use fastapi_auth_api.Tokens.{decode_email_verification_token}
use fastapi_auth_api.Blacklist.{is_token_used}
use fastapi_auth_api.Accounts.{IsConsistent}
use fastapi_auth_api.Auth.Register.{register_user}
use fastapi_auth_api.Auth.Recovery.{generic_message, forgot_password, verify_email, reset_password}
use fastapi_auth_api.Auth.Registration.{after_registration, register_user_effect}
use fastapi_auth_api.Auth.Reset.{
  MayReset, after_reset, forgot_password_uniform, reset_password_effect,
}
use fastapi_auth_api.Auth.Verification.{
  IsFor, registration_token, verify_email_effect, verify_email_mailed,
}
use fastapi_auth_api.Memory.{memory}
use fastapi_auth_api.Tests.Fixtures.{
  jane, empty, with_jane, with_jane-IsConsistent, empty-IsConsistent, noon, reset_payload,
}

taken :
    register_user memory noon "Jane@x.org" "Secret123" with_jane
    ≡ (err (http 409 "A user with this email already exists"), with_jane)
unfolding register_user
taken = refl

abbrev registered_world : World memory
registered_world = after_registration memory noon "Jane@x.org" "Secret123" empty

registration : register_user memory noon "Jane@x.org" "Secret123" empty ≡ (
  ok (record {
    id = 1;
    email = "jane@x.org";
    is_active = true;
    is_verified = false;
    message = "Registration successful. Check your email to verify your account.";
  }),
  registered_world,
)
unfolding register_user
registration = refl

register_user_effect_example : IsConsistent memory registered_world.users
register_user_effect_example =
    (register_user_effect memory noon "Jane@x.org" "Secret123" empty noon 1 empty-IsConsistent
      registration).2

forgot_password_uniform_example :
    (forgot_password memory noon "jane@x.org" with_jane).0 ≡ ok generic_message
forgot_password_uniform_example =
    (forgot_password_uniform memory noon "jane@x.org" with_jane noon).0

abbrev reset_world : World memory
reset_world =
    after_reset memory noon reset_payload "Secret456" with_jane
      (record { subject = "1"; jti = "c"; expires_at = 4500000000 }) jane

reset_done :
    reset_password memory noon reset_payload "Secret456" with_jane
    ≡ (ok "Password reset successfully", reset_world)
unfolding reset_password
reset_done = refl

reset_password_effect_example :
    (user : User) × MayReset memory noon reset_payload "Secret456" with_jane user
reset_password_effect_example =
    let done =
      reset_password_effect memory noon reset_payload "Secret456" with_jane 1 with_jane-IsConsistent
        reset_done in
    (done.0, done.1)

abbrev john : User
john = record jane { is_verified = false }

abbrev with_john : World memory
with_john = record empty { users = (john ∷ [], (tt, tt)) }

abbrev verification_payload : Payload
verification_payload = record {
  sub = "1";
  type = "email_verification";
  jti = "d";
  iat = noon;
  exp = 5400000000;
}

jane_verifies :
    verify_email memory noon verification_payload with_jane
    ≡ (ok "Email is already verified", with_jane)
unfolding verify_email
jane_verifies = refl

verify_email_effect_example : (user : User) × IsFor memory noon verification_payload with_jane user
verify_email_effect_example =
    let done =
      verify_email_effect memory noon verification_payload with_jane 1 with_jane-IsConsistent
        jane_verifies in
    (done.0, done.1)

verification_claims : IsFor memory noon verification_payload with_jane jane
unfolding decode_email_verification_token
verification_claims = record {
  claims = record { subject = "1"; jti = "d"; expires_at = 5400000000 };
  decoded = refl;
  names = refl;
  stored = refl;
}

verify_email_mailed_example :
    (w : World memory) × (verify_email memory
        (suc noon)
        (registration_token memory noon noon john empty with_john)
        with_john
      ≡ (ok "Email verified successfully", w))
unfolding is_token_used
verify_email_mailed_example =
    let done =
      verify_email_mailed memory noon (suc noon) john empty with_john (omega arith) refl refl
        refl in
    (done.0, done.1)
