-- ===== src/Tests/Oauth.antt =====
-- A provider that knows one identity, and runs of sign-in, linking and unlinking.
use Prim.Native.String.{◌++◌ as ◌&◌}
use fastapi_auth_api.Base.{suc, ◌≡◌, refl, String, true, none, some, [], arith, eq_iff, pos}
use fastapi_auth_api.Http.{ok, err}
use fastapi_auth_api.Models.{User, OauthAccount}
use fastapi_auth_api.Services.{World}
use fastapi_auth_api.Oauth.{
  Providers, invalid_state, require_client, oauth_callback, sign_in, link_account, unlink,
}
use fastapi_auth_api.Oauth.State.{called, oauth_callback_once}
use fastapi_auth_api.Oauth.Unlink.{unlink_keeps_sign_in}
use fastapi_auth_api.Oauth.Identity.{link_row, sign_in_first, sign_in_mixed_case}
use fastapi_auth_api.Auth.Recovery.{generic_message, forgot_password}
use fastapi_auth_api.Memory.{memory}
use fastapi_auth_api.Memory.Text.{unary}
use fastapi_auth_api.Tests.Fixtures.{jane, empty, with_jane, noon}

abbrev providers : Providers
providers = record {
  Token = String;
  configured = λ _. true;
  callback_url = λ provider. "https://x.org/callback";
  create_authorization_url = λ provider redirect state. some ("https://idp.org/?state=" & state);
  fetch_access_token = λ provider redirect code. some code;
  fetch_identity = λ provider token. some (token, some "Jane@x.org");
  token_urlsafe = unary;
}

known_client : (w : World memory) → require_client memory providers noon "github" w ≡ (ok tt, w)
unfolding require_client
known_client w = refl

known_client_later :
    (w : World memory) → require_client memory providers (suc noon) "google" w ≡ (ok tt, w)
unfolding require_client
known_client_later w = refl

abbrev redirected : World memory
redirected = record empty {
  draws = 1;
  redis = memory.redis.set "oauth:state:" "login" 600 noon empty.redis;
}

oauth_callback_once_example :
    oauth_callback memory providers
      (suc noon)
      "google"
      "c"
      ""
      (called memory providers noon "github" "c" "" redirected)
    ≡ (err invalid_state, called memory providers noon "github" "c" "" redirected)
oauth_callback_once_example =
    oauth_callback_once memory providers noon "github" "c" "" redirected (suc noon) "google" "c"
      (known_client redirected)
      (known_client_later (called memory providers noon "github" "c" "" redirected)) (omega arith)

abbrev newcomer : User
newcomer = record {
  id = 1;
  email = "Jane@x.org";
  hashed_password = none;
  is_active = true;
  is_verified = true;
  created_at = noon;
  roles = [];
}

abbrev signed_in : World memory
signed_in = record empty {
  users = memory.users.save newcomer empty.users;
  links =
      memory.links.save (link_row memory providers noon "github" "42" empty 1 (some "Jane@x.org"))
        empty.links;
}

first_sign_in :
    sign_in memory providers noon "github" "42" (some "Jane@x.org") none empty
    ≡ (ok newcomer, signed_in)
unfolding sign_in
first_sign_in = refl

sign_in_first_example : memory.users.get 1 signed_in.users ≡ some newcomer
sign_in_first_example =
    (sign_in_first memory providers noon "github" "42" empty (some "Jane@x.org") 1 first_sign_in).2

sign_in_mixed_case_example :
    forgot_password memory noon "Jane@x.org" signed_in ≡ (ok generic_message, signed_in)
sign_in_mixed_case_example =
    (sign_in_mixed_case memory providers noon "github" "42" empty "Jane@x.org" refl refl
      (ground (arith, eq_iff "Jane@x.org" "jane@x.org")) first_sign_in).1

abbrev linked : World memory
linked = record with_jane {
  links =
      memory.links.save (link_row memory providers noon "github" "42" with_jane 1 none)
        with_jane.links;
}

jane_links :
    link_account memory providers noon "github" "42" none (pos 1) none with_jane ≡ (ok jane, linked)
unfolding link_account
jane_links = refl

abbrev unlinked : World memory
unlinked = record linked { links = memory.links.delete 1 linked.links }

jane_unlinks : unlink memory providers noon "github" jane linked ≡ (ok tt, unlinked)
unfolding unlink
jane_unlinks = refl

unlink_keeps_sign_in_example : (link : OauthAccount) × (link.user_id ≡ 1)
unlink_keeps_sign_in_example =
    let done = unlink_keeps_sign_in memory providers noon "github" jane linked jane_unlinks in
    (done.0, done.1)
