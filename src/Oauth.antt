-- ===== src/Oauth.antt =====
-- app/api/oauth.py: sign-in and linking by an identity provider.
pub mod State
pub mod Unlink
pub mod Identity
pub mod Clients
use Prim.Native.String.{◌++◌}
use fastapi_auth_api.Base.{
  ℕ, suc, ◌≤◌, String, Bool, true, false, not, ◌&&◌, Option, none, some, is_none, is_some, List, [],
  ◌∷◌, ◌==◌, ℤ, pos, negsuc, if◌then◌else◌, leb, length, str_eq, contains, after_prefix,
}
use fastapi_auth_api.Http.{
  Action, HttpException, http, server_error, pure, raise, gets, modify, or_raise, raise_if, ok, err,
  ◌>>=◌, ◌>>◌,
}
use fastapi_auth_api.Models.{User, OauthAccount}
use fastapi_auth_api.Services.{Services, World}
use fastapi_auth_api.Tokens.{create_access_token, create_refresh_token}
use fastapi_auth_api.Dependencies.{user_by_email, save_user, get_current_user}
use fastapi_auth_api.Auth.Session.{TokenResponse}

-- The OAuth clients of app/core/oauth.py, over Authlib, and `secrets.token_urlsafe`, which is given
-- the number of the draw. `none` is a call of the provider that raises.
pub record Providers : Type 1 where
  pub Token : Type 0
  pub configured : String → Bool
  pub callback_url : String → String
  pub create_authorization_url : String → String → String → Option String
  pub fetch_access_token : String → String → String → Option Token
  pub fetch_identity : String → Token → Option (String × Option String)
  pub token_urlsafe : ℕ → String

abbrev pub supported_providers : List String
supported_providers = "google" ∷ "github" ∷ "microsoft" ∷ []

abbrev pub state_ttl_seconds : ℕ
state_ttl_seconds = 600

abbrev pub state_key : String → String
state_key state = "oauth:state:" ++ state

abbrev pub invalid_state : HttpException
invalid_state = http 400 "Invalid or expired OAuth state"

-- `db.get(User, id)`, `user_id != id`: no row has a negative id.
abbrev pub as_id : ℤ → Option ℕ
as_id (pos n) = some n
as_id (negsuc n) = none

abbrev pub is_id : Option ℕ → ℕ → Bool
is_id none i = false
is_id (some n) i = n == i

abbrev pub is_identity : String → String → OauthAccount → Bool
is_identity provider provider_user_id a =
    str_eq a.provider provider && str_eq a.provider_user_id provider_user_id

-- `existing_link is not None and existing_link.user_id != linking_user_id`
abbrev pub belongs_elsewhere : Option ℕ → Option OauthAccount → Bool
belongs_elsewhere id none = false
belongs_elsewhere id (some link) = not (is_id id link.user_id)

module _ (sv : Services) (ps : Providers) (now : ℕ) where
  unfoldable pub require_client : String → Action (World sv) (Unit {0})
  require_client provider =
      raise_if (not (contains provider supported_providers)) (http 404 "Unknown OAuth provider")
      >> raise_if (not (ps.configured provider))
          (http 503 ("OAuth provider '" ++ (provider ++ "' is not configured")))

  -- Both redirects: a new state, kept in Redis with its purpose.
  unfoldable pub start : String → String → Action (World sv) String
  start provider purpose w =
      let state = ps.token_urlsafe w.draws in
      or_raise (ps.create_authorization_url provider (ps.callback_url provider) state) server_error
        (record w {
          draws = suc w.draws;
          redis = sv.redis.set (state_key state) purpose state_ttl_seconds now w.redis;
        })

  unfoldable pub oauth_login : String → Action (World sv) String
  unfolding require_client start
  oauth_login provider = require_client provider >> start provider "login"

  unfoldable pub oauth_link : String → sv.jwt.Token → Action (World sv) String
  unfolding require_client start get_current_user
  oauth_link provider token = do
    current_user ← get_current_user sv now token
    require_client provider
    start provider ("link:" ++ sv.runtime.str current_user.id)

  -- `db.add(OAuthAccount(...)); db.commit()`
  abbrev pub add_link : ℕ → String → String → Option String → World sv → World sv
  add_link user_id provider provider_user_id email w = record w {
    links =
        sv.links.save
          (record {
            id = sv.links.next_id w.links;
            user_id = user_id;
            provider = provider;
            provider_user_id = provider_user_id;
            email = email;
            created_at = now;
          })
          w.links;
  }

  module _ (provider provider_user_id : String) (email : Option String) where
    abbrev pub get_by_id : Option ℕ → World sv → Option User
    get_by_id none w = none
    get_by_id (some id) w = sv.users.get id w.users

    -- The branch `linking_user_id is not None`.
    unfoldable pub link_account : ℤ → Option OauthAccount → Action (World sv) User
    link_account linking_user_id existing_link = do
      raise_if (belongs_elsewhere (as_id linking_user_id) existing_link)
          (http 409 "This provider account is already linked to another user")
      found ← gets (get_by_id (as_id linking_user_id))
      user ← or_raise found (http 404 "User not found")
      modify (λ w.
          if is_none existing_link then add_link user.id provider provider_user_id email w else w)
      pure user

    abbrev pub new_oauth_user : String → World sv → User
    new_oauth_user address w = record {
      id = sv.users.next_id w.users;
      email = address;
      hashed_password = none;
      is_active = true;
      is_verified = true;
      created_at = now;
      roles = [];
    }

    -- The account of the address, which is made where there is none.
    abbrev pub user_for : String → Option User → Action (World sv) User
    user_for address (some user) w = (ok user, w)
    user_for address none w =
        (ok (new_oauth_user address w), save_user sv (new_oauth_user address w) w)

    abbrev pub unlinked_user : Option String → Action (World sv) (Option User)
    unlinked_user none w = (err (http 400 (provider ++ " did not provide an email address")), w)
    unlinked_user (some address) w =
        (user_for address (user_by_email sv address w) >>= λ user.
        modify (add_link user.id provider provider_user_id email) >> pure (some user))
          w

    abbrev pub identified_user : Option OauthAccount → Action (World sv) (Option User)
    identified_user none w = unlinked_user email w
    identified_user (some link) w = (ok (sv.users.get link.user_id w.users), w)

    -- The branch of a sign-in.
    unfoldable pub sign_in : Option OauthAccount → Action (World sv) User
    sign_in existing_link = do
      found ← identified_user existing_link
      user ← or_raise found (http 403 "User account is inactive")
      raise_if (not user.is_active) (http 403 "User account is inactive")
      pure user

    abbrev pub link_to : Option ℤ → Option OauthAccount → Action (World sv) User
    link_to none existing_link w = (err server_error, w)
    link_to (some id) existing_link w = link_account id existing_link w

    abbrev pub user_by_purpose : Option String → Option OauthAccount → Action (World sv) User
    user_by_purpose none existing_link w = sign_in existing_link w
    user_by_purpose (some id) existing_link w = link_to (sv.runtime.int id) existing_link w

  -- The state of a callback is read and spent.
  unfoldable pub take_state : String → Action (World sv) String
  take_state state = do
    stored ← gets (λ w. sv.redis.get (state_key state) now w.redis)
    state_value ← or_raise stored invalid_state
    modify (λ w. record w { redis = sv.redis.delete (state_key state) w.redis })
    pure state_value

  unfoldable pub identify : String → String → Action (World sv) (String × Option String)
  identify provider code = do
    token ← or_raise (ps.fetch_access_token provider (ps.callback_url provider) code) server_error
    or_raise (ps.fetch_identity provider token) server_error

  unfoldable pub issue_tokens : User → Action (World sv) (TokenResponse sv.jwt.Token)
  unfolding create_access_token create_refresh_token
  issue_tokens user = do
    access_token ← create_access_token sv now user.email
    refresh_token ← create_refresh_token sv now user.email
    pure (record {
      access_token = access_token;
      refresh_token = refresh_token;
      token_type = "bearer";
    })

  unfoldable pub account_of : String → String → String × Option String → Action (World sv) User
  unfolding sign_in link_account
  account_of provider state_value identity = do
    existing_link ← gets (λ w. sv.links.scalar (is_identity provider identity.0) w.links)
    user_by_purpose provider identity.0 identity.1 (after_prefix "link:" state_value) existing_link

  -- A callback after its state was taken.
  unfoldable pub finish : String → String → String → Action (World sv) (TokenResponse sv.jwt.Token)
  unfolding identify account_of issue_tokens
  finish provider code state_value = do
    identity ← identify provider code
    user ← account_of provider state_value identity
    issue_tokens user

  unfoldable pub oauth_callback :
      String → String → String → Action (World sv) (TokenResponse sv.jwt.Token)
  unfolding require_client take_state finish
  oauth_callback provider code state = do
    require_client provider
    state_value ← take_state state
    finish provider code state_value

  abbrev pub is_of : ℕ → OauthAccount → Bool
  is_of user_id a = a.user_id == user_id

  abbrev pub is_of_provider : ℕ → String → OauthAccount → Bool
  is_of_provider user_id provider a = (a.user_id == user_id) && str_eq a.provider provider

  unfoldable pub list_linked_accounts : sv.jwt.Token → Action (World sv) (List OauthAccount)
  unfolding get_current_user
  list_linked_accounts token = do
    current_user ← get_current_user sv now token
    gets (λ w. sv.links.scalars (is_of current_user.id) w.links)

  -- The body of `unlink_provider`, for the current user.
  unfoldable pub unlink : String → User → Action (World sv) (Unit {0})
  unlink provider current_user = do
    found ← gets (λ w. sv.links.scalar (is_of_provider current_user.id provider) w.links)
    link ← or_raise found (http 404 "Provider is not linked")
    remaining_links ← gets (λ w. length (sv.links.scalars (is_of current_user.id) w.links))
    raise_if (is_none current_user.hashed_password && leb remaining_links 1) (
        http 400
          "Cannot unlink the only sign-in method. Set a password first via the password reset flow.")
    modify (λ w. record w { links = sv.links.delete link.id w.links })

  unfoldable pub unlink_provider : String → sv.jwt.Token → Action (World sv) (Unit {0})
  unfolding get_current_user unlink
  unlink_provider provider token = get_current_user sv now token >>= unlink provider
