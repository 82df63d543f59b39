-- ===== src/Api.antt =====
-- The application as a whole: the requests and tasks that change the tables or Redis, served one
-- after the other. The routes of version 2 are those of version 1 but for the one that answers with
-- another view of the account it changed.
pub mod Callers
pub mod Tables
pub mod Revoked
use fastapi_auth_api.Base.{ℕ, ◌≤◌, ◌<◌, ◌≡◌, ◌≢◌, String, Bool, Option, some, List, [], ◌∷◌}
use fastapi_auth_api.Services.{Services, World}
use fastapi_auth_api.Realtime.{Received, websocket_endpoint}
use fastapi_auth_api.Dependencies.{get_current_user_ws}
use fastapi_auth_api.Http.{Action, ok, err, ◌>>=◌}
use fastapi_auth_api.Auth.Register.{register_route}
use fastapi_auth_api.Auth.Session.{login_route, refresh_access_token, logout}
use fastapi_auth_api.Auth.Recovery.{verify_email, forgot_password_route, reset_password}
use fastapi_auth_api.Profile.{
  update_current_user, change_current_user_password, deactivate_current_user,
}
use fastapi_auth_api.UsersV2.{update_current_user_v2}
use fastapi_auth_api.Admin.{
  update_user_status_route, deactivate_user_route, assign_role_route, revoke_role_route,
}
use fastapi_auth_api.Oauth.{Providers, oauth_login, oauth_link, oauth_callback, unlink_provider}
use fastapi_auth_api.Cleanup.{cleanup_unverified_users}

-- A request with what its route takes from it, or the daily task. Tokens come from the headers or
-- the body, and the first argument of a limited route is the address of the client.
pub data Request (Token : Type 0) : Type 0 where
  register : Option String → String → String → Request Token
  login : Option String → String → String → Request Token
  refresh : Token → Request Token
  log_out : Option Token → Token → Request Token
  verify : Token → Request Token
  forgot : Option String → String → Request Token
  reset : Token → String → Request Token
  update_me : Token → Option String → Request Token
  update_me_v2 : Token → Option String → Request Token
  change_password : Token → String → String → Request Token
  delete_me : Token → Request Token
  set_status : Token → ℕ → Option Bool → Option Bool → Request Token
  deactivate : Token → ℕ → Request Token
  assign : Token → (ℕ → Bool) → Bool → ℕ → String → Request Token
  revoke : Token → ℕ → String → Request Token
  sign_in_by : String → Request Token
  link_by : String → Token → Request Token
  callback : String → String → String → Request Token
  unlink : String → Token → Request Token
  websocket : Token → (ℕ → Bool) → Bool → ℕ → List Received → Request Token
  clean_up : Request Token

module _ (sv : Services) (ps : Providers) where
  -- A handshake that is let through, and its session.
  unfoldable pub websocket_session :
      ℕ → sv.jwt.Token → (ℕ → Bool) → Bool → ℕ → List Received → Action (World sv) (Unit {0})
  unfolding get_current_user_ws websocket_endpoint
  websocket_session now token works reachable socket messages =
      get_current_user_ws sv now token >>= λ user.
      websocket_endpoint sv works reachable user socket messages

  -- The state after a request that is served at an instant.
  unfoldable pub perform : ℕ → Request sv.jwt.Token → World sv → World sv
  unfolding websocket_session
  perform now (register client given password) w = (register_route sv now client given password w).1
  perform now (login client given password) w = (login_route sv now client given password w).1
  perform now (refresh token) w = (refresh_access_token sv now token w).1
  perform now (log_out refresh_token token) w = (logout sv now refresh_token token w).1
  perform now (verify token) w = (verify_email sv now token w).1
  perform now (forgot client given) w = (forgot_password_route sv now client given w).1
  perform now (reset token password) w = (reset_password sv now token password w).1
  perform now (update_me token email) w = (update_current_user sv now token email w).1
  perform now (update_me_v2 token email) w = (update_current_user_v2 sv now token email w).1
  perform now (change_password token old new) w =
      (change_current_user_password sv now token old new w).1
  perform now (delete_me token) w = (deactivate_current_user sv now token w).1
  perform now (set_status token id is_active is_verified) w =
      (update_user_status_route sv now token id is_active is_verified w).1
  perform now (deactivate token id) w = (deactivate_user_route sv now token id w).1
  perform now (assign token works reachable id role) w =
      (assign_role_route sv now token works reachable id role w).1
  perform now (revoke token id role) w = (revoke_role_route sv now token id role w).1
  perform now (sign_in_by provider) w = (oauth_login sv ps now provider w).1
  perform now (link_by provider token) w = (oauth_link sv ps now provider token w).1
  perform now (callback provider code state) w = (oauth_callback sv ps now provider code state w).1
  perform now (unlink provider token) w = (unlink_provider sv ps now provider token w).1
  perform now (websocket token works reachable socket messages) w =
      (websocket_session now token works reachable socket messages w).1
  perform now clean_up w = (cleanup_unverified_users sv now w).1

  -- Requests with their instants.
  abbrev pub Schedule : Type 0
  Schedule = List (ℕ × Request sv.jwt.Token)

  unfoldable pub serve : Schedule → World sv → World sv
  unfolding perform
  serve [] w = w
  serve ((now, r) ∷ later) w = serve later (perform now r w)
