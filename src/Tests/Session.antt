-- ===== src/Tests/Session.antt =====
-- Tokens, logins and logouts.
use fastapi_auth_api.Base.{suc, ◌≡◌, refl, ◌↔◌, arith, eq_iff}
use fastapi_auth_api.Http.{ok, err, Returns}
use fastapi_auth_api.Models.{User}
use fastapi_auth_api.Services.{World}
use fastapi_auth_api.Tokens.{minutes, create_access_token}
use fastapi_auth_api.Tokens.Kinds.{accepted, rejected, while_current, create_token_kinds}
use fastapi_auth_api.Blacklist.{is_token_blacklisted}
use fastapi_auth_api.Dependencies.{bearer, get_current_user, get_current_user_ws}
use fastapi_auth_api.Dependencies.Access.{
  IsHolder, get_current_user_iff, get_current_user_ws_agrees,
}
use fastapi_auth_api.Auth.Session.{login_user, logout}
use fastapi_auth_api.Auth.Login.{MayLogIn, issued, login_user_sound, login_user_refused}
use fastapi_auth_api.Auth.Logout.{after_logout, logout_revokes_access, logout_gap}
use fastapi_auth_api.Memory.{memory}
use fastapi_auth_api.Tests.Fixtures.{jane, empty, with_jane, noon, access_payload, refresh_payload}

create_token_kinds_example :
    Returns
      (λ token.
        accepted memory 7 token
        ≡ record rejected { access = while_current memory 5 7 (minutes 30) "jane@x.org" empty })
      (create_access_token memory 5 "jane@x.org" empty)
create_token_kinds_example = (create_token_kinds memory 5 7 "jane@x.org" empty).0

login_ok : login_user memory noon "Jane@x.org" "Secret123" with_jane ≡ (
  ok (issued memory noon "Jane@x.org" "Secret123" with_jane "jane@x.org"),
  record with_jane { draws = 2 },
)
unfolding login_user
login_ok = refl

login_wrong :
    login_user memory noon "jane@x.org" "guess" with_jane
    ≡ (err (bearer "Invalid email or password"), with_jane)
unfolding login_user
login_wrong = refl

abbrev jane-MayLogIn : MayLogIn memory noon "Jane@x.org" "Secret123" with_jane jane
jane-MayLogIn = record { found = refl; password_fits = refl; verified = refl; active = refl }

login_user_sound_example :
    (user : User) × MayLogIn memory noon "Jane@x.org" "Secret123" with_jane user
login_user_sound_example =
    let done = login_user_sound memory noon "Jane@x.org" "Secret123" with_jane noon login_ok in
    (done.0, done.1)

login_user_refused_example : with_jane ≡ with_jane
login_user_refused_example =
    (login_user_refused memory noon "jane@x.org" "guess" with_jane login_wrong).0

get_current_user_iff_example :
    (get_current_user memory noon access_payload with_jane ≡ (ok jane, with_jane))
    ↔ IsHolder memory noon access_payload with_jane jane
get_current_user_iff_example = get_current_user_iff memory noon access_payload with_jane jane

get_current_user_ws_agrees_example :
    (get_current_user_ws memory noon access_payload with_jane ≡ (ok jane, with_jane))
    ↔ (get_current_user memory noon access_payload with_jane ≡ (ok jane, with_jane))
get_current_user_ws_agrees_example =
    (get_current_user_ws_agrees memory noon access_payload with_jane jane).0

abbrev logged_out : World memory
logged_out = after_logout memory noon access_payload refresh_payload with_jane

logout_revokes_access_example :
    get_current_user memory (suc noon) access_payload logged_out
    ≡ (err (bearer "Token has been revoked"), logged_out)
logout_revokes_access_example =
    (logout_revokes_access memory noon access_payload refresh_payload with_jane refl refl
      (ground (arith, eq_iff "b" "a")) (omega arith) (omega arith) (suc noon) logged_out
      (omega arith) (omega arith) refl).1

-- The token expires at 5400 seconds; half a second into that second it works again.
logout_gap_example :
    get_current_user memory 5400500000 access_payload logged_out ≡ (ok jane, logged_out)
unfolding logout is_token_blacklisted
logout_gap_example =
    logout_gap memory noon access_payload refresh_payload with_jane refl refl
      (ground (arith, eq_iff "b" "a")) (omega arith) (omega arith) 5400500000 jane (omega arith)
      (omega arith) refl refl refl refl
