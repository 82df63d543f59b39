-- ===== src/Tests/Api.antt =====
-- Requests one after the other, over the services in memory.
use fastapi_auth_api.Base.{
  ℕ, suc, ◌≡◌, ◌≢◌, refl, ap, subst, String, true, none, some, [], ◌∷◌, arith, eq_iff, Option,
}
use fastapi_auth_api.Http.{ok, err, http}
use fastapi_auth_api.Services.{World}
use fastapi_auth_api.Services.Jwt.{Payload}
use fastapi_auth_api.Tokens.{TokenClaims, decode_access_token}
use fastapi_auth_api.Accounts.{IsConsistent}
use fastapi_auth_api.Dependencies.{bearer, get_current_user}
use fastapi_auth_api.Auth.Session.{refresh_access_token}
use fastapi_auth_api.Auth.Recovery.{reset_password}
use fastapi_auth_api.Auth.Logout.{after_logout}
use fastapi_auth_api.Oauth.{Providers}
use fastapi_auth_api.Api.{register, login, log_out, reset, delete_me, clean_up, Schedule, serve}
use fastapi_auth_api.Api.Tables.{serve-IsConsistent}
use fastapi_auth_api.Api.Tables.Others.{GivesLowerCase}
use fastapi_auth_api.Api.Revoked.{
  IsWithin, NoneLogsOut, logged_out_refused, logged_out_not_refreshed, reset_refused_later,
}
use fastapi_auth_api.Memory.{memory}
use fastapi_auth_api.Memory.Text.{unary}
use fastapi_auth_api.Tests.Fixtures.{
  empty, with_jane, empty-IsConsistent, noon, access_payload, refresh_payload, reset_payload,
}

abbrev providers : Providers
providers = record {
  Token = String;
  configured = λ _. true;
  callback_url = λ provider. "https://x.org/callback";
  create_authorization_url = λ provider redirect state. some "https://idp.org/";
  fetch_access_token = λ provider redirect code. some code;
  fetch_identity = λ provider token. some (token, some "jane@x.org");
  token_urlsafe = unary;
}

abbrev address_of : Option (String × Option String) → String
address_of none = ""
address_of (some (id, none)) = ""
address_of (some (id, some address)) = address

in_lower_case : GivesLowerCase memory providers
in_lower_case provider id address token h =
    subst (λ x. memory.runtime.lower x ≡ x) (ap address_of h) refl

abbrev one_day : Schedule memory providers
one_day =
    (noon, register (some "10.0.0.1") "Jane@x.org" "Secret123")
    ∷ (suc noon, login none "jane@x.org" "Secret123")
    ∷ (suc noon, clean_up)
    ∷ []

serve-IsConsistent_example : IsConsistent memory (serve memory providers one_day empty).users
serve-IsConsistent_example =
    serve-IsConsistent memory providers in_lower_case one_day empty empty-IsConsistent

-- Another session of the account ends.
abbrev other_payload : Payload
other_payload = record access_payload { jti = "z" }

abbrev other_logout : Schedule memory providers
other_logout =
    (suc noon, login none "jane@x.org" "Secret123") ∷ (suc noon, log_out none other_payload) ∷ []

other_session :
    (jti : String)
    → jti ≢ "z"
    → (c : TokenClaims) → decode_access_token memory (suc noon) other_payload ≡ some c
    → jti ≢ c.jti
unfolding decode_access_token
other_session jti differ c h = ground (arith, h)

spares_a : NoneLogsOut memory providers "a" other_logout
unfolding NoneLogsOut
spares_a = (
  tt,
  ((other_session "a" (ground (arith, eq_iff "a" "z")), λ q c same. absurd (ground arith)), tt),
)

spares_b : NoneLogsOut memory providers "b" other_logout
unfolding NoneLogsOut
spares_b = (
  tt,
  ((other_session "b" (ground (arith, eq_iff "b" "z")), λ q c same. absurd (ground arith)), tt),
)

abbrev much_later : World memory
much_later =
    serve memory providers other_logout
      (after_logout memory noon access_payload refresh_payload with_jane)

abbrev later : ℕ
later = suc (suc noon)

logged_out_refused_example :
    get_current_user memory later access_payload much_later
    ≡ (err (bearer "Token has been revoked"), much_later)
logged_out_refused_example =
    logged_out_refused memory providers noon access_payload refresh_payload with_jane refl refl
      (ground (arith, eq_iff "b" "a")) (omega arith) (omega arith) other_logout later spares_a
      (omega arith) (omega arith)

logged_out_not_refreshed_example :
    refresh_access_token memory later refresh_payload much_later
    ≡ (err (http 401 "Invalid or expired refresh token"), much_later)
logged_out_not_refreshed_example =
    logged_out_not_refreshed memory providers noon access_payload refresh_payload with_jane refl
      refl (ground (arith, eq_iff "b" "a")) (omega arith) (omega arith) other_logout later spares_b
      (omega arith) (omega arith)

abbrev reset_world : World memory
reset_world = (reset_password memory noon reset_payload "Secret456" with_jane).1

reset_done :
    reset_password memory noon reset_payload "Secret456" with_jane
    ≡ (ok "Password reset successfully", reset_world)
unfolding reset_password
reset_done = refl

abbrev attempts : Schedule memory providers
attempts = (suc noon, reset reset_payload "Secret789") ∷ (suc noon, delete_me access_payload) ∷ []

in_time : IsWithin memory providers noon 4500000000 attempts
unfolding IsWithin
in_time = ((omega arith, omega arith), ((omega arith, omega arith), tt))

reset_refused_later_example :
    reset_password memory later reset_payload "Secret789"
      (serve memory providers attempts reset_world)
    ≡ (
      err (http 401 "Invalid or expired password reset token"),
      serve memory providers attempts reset_world,
    )
reset_refused_later_example =
    reset_refused_later memory providers noon reset_payload "Secret456" with_jane refl reset_done
      attempts later "Secret789" in_time (omega arith) (omega arith)
