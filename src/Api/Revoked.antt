-- ===== src/Api/Revoked.antt =====
-- A revoked or spent token stays so, whatever is requested meanwhile.
mod Keys
mod Others
mod Tokens
mod Entries
use fastapi_auth_api.Base.{
  ℕ, zero, suc, ◌≤◌, ◌<◌, ◌≡◌, ◌≢◌, refl, sym, subst, ◌∙◌, String, true, false, Option, none, some,
  List, [], ◌∷◌, inl, inr, arith, Bool-cases, str_eq, eq_iff,
}
use fastapi_auth_api.Http.{ok, err, http}
use fastapi_auth_api.Services.{Services, World}
use fastapi_auth_api.Services.Redis.{Entry}
use fastapi_auth_api.Services.Jwt.{Payload}
use fastapi_auth_api.Tokens.{TokenClaims, decode_access_token, decode_refresh_token}
use fastapi_auth_api.Tokens.Kinds.{IsCurrent}
use fastapi_auth_api.Blacklist.{blacklist_key, used_key, is_token_used, mark_token_used}
use fastapi_auth_api.Blacklist.Revocation.{
  used-ne-blacklist, blacklist-ne-used, is_token_used_local, str_eq-append_left,
}
use fastapi_auth_api.RateLimit.{RateLimiter, limit_key}
use fastapi_auth_api.Dependencies.{bearer, get_current_user}
use fastapi_auth_api.Auth.Register.{register_user, register_limit, register_route}
use fastapi_auth_api.Auth.Session.{
  login_user, login_limit, login_route, logout, refresh_access_token,
}
use fastapi_auth_api.Auth.Logout.{
  revoked_until, after_logout, logout_revokes_access, logout_revokes_refresh,
}
use fastapi_auth_api.Auth.Recovery.{
  forgot_password, forgot_password_limit, forgot_password_route, reset_password,
}
use fastapi_auth_api.Auth.Reset.{reset_password_once, spent_by_reset}
use fastapi_auth_api.Oauth.{Providers, state_key}
use fastapi_auth_api.Api.{Request, log_out, perform, Schedule, serve}
use Keys.{used-ne-limit, used-ne-state, blacklist-ne-limit, blacklist-ne-state}
use Others.{
  Holds, limited-Holds, register-Holds, login-Holds, refresh-Holds, forgot-Holds, update_me-Holds,
  change_password-Holds, delete_me-Holds, set_status-Holds, deactivate-Holds, assign-Holds,
  revoke-Holds, unlink-Holds, websocket-Holds, cleanup-Holds,
}
use Tokens.{
  oauth_login-Holds, oauth_link-Holds, callback-Holds, SparedBySpending, verify-Holds, reset-Holds,
  LogsOutOthers, logout-Holds,
}
use Entries.{LeavesOut, never_logged_out, logs_out_others, perform-Holds, spent_spared, never_spent}

module _ (sv : Services) (ps : Providers) where
  -- Every request is served from one instant on and before another.
  unfoldable pub IsWithin : ℕ → ℕ → Schedule sv ps → Type 0
  IsWithin start end [] = Unit
  IsWithin start end ((t, r) ∷ later) = ((start ≤ t) × (t < end)) × IsWithin start end later

  unfoldable pub NoneLogsOut : String → Schedule sv ps → Type 0
  NoneLogsOut jti [] = Unit
  NoneLogsOut jti ((t, r) ∷ later) = LeavesOut sv ps jti t r × NoneLogsOut jti later

  module _ (jti : String) where
    serve-used :
        (requests : Schedule sv ps) (s0 : sv.redis.State) (start end : ℕ) (w : World sv)
        → ((t : ℕ) → start ≤ t → t < end → is_token_used sv.redis t jti s0 ≡ true)
        → IsWithin start end requests
        → sv.redis.peek (used_key jti) w.redis ≡ sv.redis.peek (used_key jti) s0
        → sv.redis.peek (used_key jti) (serve sv ps requests w).redis
          ≡ sv.redis.peek (used_key jti) s0
    unfolding serve IsWithin
    serve-used [] s0 start end w used within h = h
    serve-used ((t, r) ∷ later) s0 start end w used ((from, to), within) h =
        serve-used later s0 start end (perform sv ps t r w) used within (
          perform-Holds sv ps t (used_key jti) (sv.redis.peek (used_key jti) s0) (used-ne-limit jti)
            (used-ne-state jti) (spent_spared sv ps jti t s0 (used t from to)) r w
            (never_logged_out sv ps jti t (sv.redis.peek (used_key jti) s0) r) h)

    serve-revoked :
        (requests : Schedule sv ps) (e : Option Entry) (w : World sv)
        → NoneLogsOut jti requests
        → sv.redis.peek (blacklist_key jti) w.redis ≡ e
        → sv.redis.peek (blacklist_key jti) (serve sv ps requests w).redis ≡ e
    unfolding serve NoneLogsOut
    serve-revoked [] e w none_out h = h
    serve-revoked ((t, r) ∷ later) e w (this, none_out) h =
        serve-revoked later e (perform sv ps t r w) none_out (
          perform-Holds sv ps t (blacklist_key jti) e (blacklist-ne-limit jti)
            (blacklist-ne-state jti) (never_spent sv ps jti t e) r w
            (logs_out_others sv ps jti t e r this) h)

  -- After a logout with the current access and refresh tokens of a session, whose identifiers
  -- differ, and any requests and daily tasks after it, none of them a logout with a token of
  -- the identifier of the access token, `get_current_user` refuses the access token as revoked,
  -- until the last whole second before its expiry.
  pub logged_out_refused :
      (now : ℕ) (p q : Payload) (w : World sv)
      → p.type ≡ "access"
      → q.type ≡ "refresh"
      → q.jti ≢ p.jti
      → IsCurrent now p
      → IsCurrent now q
      → (requests : Schedule sv ps) (t : ℕ) → NoneLogsOut p.jti requests
      → now ≤ t
      → t < revoked_until now p
      → let v = serve sv ps requests (after_logout sv now p q w) in
        get_current_user sv t (sv.jwt.encode p) v ≡ (err (bearer "Token has been revoked"), v)
  logged_out_refused now p q w access refresh apart current q_current requests t none_out later h =
      let end = after_logout sv now p q w in
      (logout_revokes_access sv now p q w access refresh apart current q_current t
        (serve sv ps requests end) later h
        (serve-revoked p.jti requests (sv.redis.peek (blacklist_key p.jti) end.redis) end none_out
          refl)).1

  -- The same for the refresh token, which then yields no access token.
  pub logged_out_not_refreshed :
      (now : ℕ) (p q : Payload) (w : World sv)
      → p.type ≡ "access"
      → q.type ≡ "refresh"
      → q.jti ≢ p.jti
      → IsCurrent now p
      → IsCurrent now q
      → (requests : Schedule sv ps) (t : ℕ) → NoneLogsOut q.jti requests
      → now ≤ t
      → t < revoked_until now q
      → let v = serve sv ps requests (after_logout sv now p q w) in
        refresh_access_token sv t (sv.jwt.encode q) v
        ≡ (err (http 401 "Invalid or expired refresh token"), v)
  logged_out_not_refreshed now p q w access refresh apart current q_current requests t none_out
        later h =
      let end = after_logout sv now p q w in
      (logout_revokes_refresh sv now p q w access refresh apart current q_current t
        (serve sv ps requests end) later h
        (serve-revoked q.jti requests (sv.redis.peek (blacklist_key q.jti) end.redis) end none_out
          refl)).1

  -- After a token has reset a password, and any requests and daily tasks between the reset and
  -- the last whole second before the expiry of the token, the token is refused for another reset,
  -- which changes nothing.
  pub reset_refused_later :
      (now : ℕ) (p : Payload) (new_password : String) (w : World sv) {message : String}
      {w' : World sv}
      → p.type ≡ "password_reset"
      → reset_password sv now (sv.jwt.encode p) new_password w ≡ (ok message, w')
      → (requests : Schedule sv ps) (t : ℕ) (other_password : String)
      → IsWithin now (revoked_until now p) requests
      → now ≤ t
      → t < revoked_until now p
      → reset_password sv t (sv.jwt.encode p) other_password (serve sv ps requests w')
        ≡ (err (http 401 "Invalid or expired password reset token"), serve sv ps requests w')
  reset_refused_later now p new_password w {w'} kind done requests t other_password within later h =
      reset_password_once sv now p new_password w kind done t other_password
        (serve sv ps requests w') later h
        (serve-used p.jti requests w'.redis now (revoked_until now p) w'
          (spent_by_reset sv now p new_password w kind done) within refl)
