-- ===== src/Tests/Clients.antt =====
-- A GitHub identity whose profile shows no address.
use fastapi_auth_api.Base.{◌≡◌, refl, String, true, false, some, none, [], ◌∷◌}
use fastapi_auth_api.Oauth.Clients.{Authlib, fetch_identity, fetch_github_identity}

abbrev github : Authlib
github = record {
  Token = String;
  create_authorization_url = λ provider redirect state. some redirect;
  fetch_access_token = λ provider redirect code. some code;
  userinfo = λ provider token. none;
  github_user = λ token. some (token, none);
  github_user_emails = λ token. some (
      record { email = "old@x.org"; primary = true; verified = false }
      ∷ record { email = "jane@x.org"; primary = true; verified = true }
      ∷ []);
  token_urlsafe = λ n. "s";
}

verified_address : fetch_identity github "github" "7" ≡ some ("7", some "jane@x.org")
unfolding fetch_identity fetch_github_identity
verified_address = refl

no_userinfo : fetch_identity github "google" "7" ≡ none
unfolding fetch_identity
no_userinfo = refl
