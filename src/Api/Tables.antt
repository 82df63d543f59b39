-- ===== src/Api/Tables.antt =====
-- The users table stays consistent, whatever is requested.
mod Sessions
mod Profile
mod Roles
pub mod Others
use fastapi_auth_api.Base.{ℕ, [], ◌∷◌, subst}
use fastapi_auth_api.Services.{Services, World}
use fastapi_auth_api.Accounts.{IsConsistent}
use fastapi_auth_api.Auth.Register.{register_user, register_limit, register_route}
use fastapi_auth_api.Auth.Session.{login_user, login_limit, login_route}
use fastapi_auth_api.Auth.Recovery.{forgot_password, forgot_password_limit, forgot_password_route}
use fastapi_auth_api.UsersV2.{update_state}
use fastapi_auth_api.Oauth.{Providers}
use fastapi_auth_api.Api.{
  Request, register, login, refresh, log_out, verify, forgot, reset, update_me, update_me_v2,
  change_password, delete_me, set_status, deactivate, assign, revoke, sign_in_by, link_by, callback,
  unlink, websocket, clean_up, perform, Schedule, serve,
}
use Sessions.{
  limited, register-Keeps, login-Keeps, refresh-Keeps, logout-Keeps, verify-Keeps, forgot-Keeps,
  reset-Keeps,
}
use Profile.{update_me-Keeps, change_password-Keeps, delete_me-Keeps}
use Roles.{set_status_route-Keeps, deactivate_route-Keeps, assign_route-Keeps, revoke_route-Keeps}
use Others.{
  GivesLowerCase, callback-Keeps, oauth_login-Keeps, oauth_link-Keeps, unlink_provider-Keeps,
  websocket-Keeps, cleanup-IsConsistent,
}

module _ (sv : Services) (ps : Providers) (low : GivesLowerCase sv ps) where
  perform-IsConsistent :
      (now : ℕ) (r : Request sv.jwt.Token) (w : World sv)
      → IsConsistent sv w.users
      → IsConsistent sv (perform sv ps now r w).users
  unfolding perform register_route login_route forgot_password_route
  perform-IsConsistent now (register client given password) =
      limited sv now register_limit client (register_user sv now given password)
        (register-Keeps sv now given password)
  perform-IsConsistent now (login client given password) =
      limited sv now login_limit client (login_user sv now given password)
        (login-Keeps sv now given password)
  perform-IsConsistent now (refresh token) = refresh-Keeps sv now token
  perform-IsConsistent now (log_out refresh_token token) = logout-Keeps sv now refresh_token token
  perform-IsConsistent now (verify token) = verify-Keeps sv now token
  perform-IsConsistent now (forgot client given) =
      limited sv now forgot_password_limit client (forgot_password sv now given)
        (forgot-Keeps sv now given)
  perform-IsConsistent now (reset token password) = reset-Keeps sv now token password
  perform-IsConsistent now (update_me token email) = update_me-Keeps sv now token email
  perform-IsConsistent now (update_me_v2 token email) = λ w c.
      subst (λ w'. IsConsistent sv w'.users) (update_state sv w now token email)
        (update_me-Keeps sv now token email w c)
  perform-IsConsistent now (change_password token old new) =
      change_password-Keeps sv now token old new
  perform-IsConsistent now (delete_me token) = delete_me-Keeps sv now token
  perform-IsConsistent now (set_status token id is_active is_verified) =
      set_status_route-Keeps sv now token id is_active is_verified
  perform-IsConsistent now (deactivate token id) = deactivate_route-Keeps sv now token id
  perform-IsConsistent now (assign token works reachable id role) =
      assign_route-Keeps sv now token works reachable id role
  perform-IsConsistent now (revoke token id role) = revoke_route-Keeps sv now token id role
  perform-IsConsistent now (sign_in_by provider) = oauth_login-Keeps sv ps now provider
  perform-IsConsistent now (link_by provider token) = oauth_link-Keeps sv ps now provider token
  perform-IsConsistent now (callback provider code state) =
      callback-Keeps sv ps now low provider code state
  perform-IsConsistent now (unlink provider token) = unlink_provider-Keeps sv ps now provider token
  perform-IsConsistent now (websocket token works reachable socket messages) =
      websocket-Keeps sv ps now token works reachable socket messages
  perform-IsConsistent now clean_up = cleanup-IsConsistent sv ps now

  -- Where the providers give addresses in lower case, every sequence of requests and daily tasks
  -- takes a consistent users table to a consistent one: no two accounts have one address, and
  -- every address is in lower case.
  pub serve-IsConsistent :
      (requests : Schedule sv ps) (w : World sv)
      → IsConsistent sv w.users
      → IsConsistent sv (serve sv ps requests w).users
  unfolding serve
  serve-IsConsistent [] w c = c
  serve-IsConsistent ((now, r) ∷ later) w c =
      serve-IsConsistent later (perform sv ps now r w) (perform-IsConsistent now r w c)
