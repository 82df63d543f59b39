-- ===== src/Api/Revoked/Entries.antt =====
-- What each request of the application leaves of a Redis entry that revokes or spends a token.
use fastapi_auth_api.Base.{
  ℕ, zero, suc, ◌≡◌, ◌≢◌, String, true, false, Option, some, inl, inr, subst, arith, Bool-cases,
  str_eq, eq_iff,
}
use fastapi_auth_api.Services.{Services, World}
use fastapi_auth_api.Services.Redis.{Entry}
use fastapi_auth_api.Tokens.{TokenClaims, decode_access_token, decode_refresh_token}
use fastapi_auth_api.Blacklist.{blacklist_key, used_key, is_token_used, mark_token_used}
use fastapi_auth_api.Blacklist.Revocation.{
  used-ne-blacklist, blacklist-ne-used, is_token_used_local, str_eq-append_left,
}
use fastapi_auth_api.RateLimit.{RateLimiter, limit_key}
use fastapi_auth_api.Auth.Register.{register_user, register_limit, register_route}
use fastapi_auth_api.Auth.Session.{login_user, login_limit, login_route}
use fastapi_auth_api.Auth.Recovery.{forgot_password, forgot_password_limit, forgot_password_route}
use fastapi_auth_api.UsersV2.{update_state}
use fastapi_auth_api.Oauth.{Providers, state_key}
use fastapi_auth_api.Api.{
  Request, register, login, refresh, log_out, verify, forgot, reset, update_me, update_me_v2,
  change_password, delete_me, set_status, deactivate, assign, revoke, sign_in_by, link_by, callback,
  unlink, websocket, clean_up, perform,
}
use fastapi_auth_api.Api.Revoked.Others.{
  Holds, limited-Holds, register-Holds, login-Holds, refresh-Holds, forgot-Holds, update_me-Holds,
  change_password-Holds, delete_me-Holds, set_status-Holds, deactivate-Holds, assign-Holds,
  revoke-Holds, unlink-Holds, websocket-Holds, cleanup-Holds,
}
use fastapi_auth_api.Api.Revoked.Tokens.{
  oauth_login-Holds, oauth_link-Holds, callback-Holds, SparedBySpending, verify-Holds, reset-Holds,
  LogsOutOthers, logout-Holds,
}

module _ (sv : Services) (ps : Providers) where
  -- A logout, if this is one, revokes no token with this identifier.
  abbrev pub LeavesOut : String → ℕ → Request sv.jwt.Token → Type 0
  LeavesOut jti t (log_out refresh_token token) =
      ((c : TokenClaims) → decode_access_token sv t token ≡ some c → jti ≢ c.jti)
      × ((q : sv.jwt.Token) (c : TokenClaims)
          → refresh_token ≡ some q
          → decode_refresh_token sv t q ≡ some c
          → jti ≢ c.jti)
  LeavesOut jti t r = Unit

  -- What a logout must not touch.
  abbrev pub SparedBy : ℕ → String → Option Entry → Request sv.jwt.Token → Type 0
  SparedBy now k e (log_out refresh_token token) = LogsOutOthers sv ps now k e refresh_token token
  SparedBy now k e r = Unit

  module _ (now : ℕ) (k : String) (e : Option Entry)
      (not_limit : (rl : RateLimiter) (client : Option String)
        → str_eq k (limit_key rl client) ≡ false)
      (not_state : (state : String) → str_eq k (state_key state) ≡ false)
      (spared : SparedBySpending sv ps now k e) where
    -- A request leaves an entry that is neither a counter nor a state, if it neither spends nor
    -- revokes its token.
    pub perform-Holds :
        (r : Request sv.jwt.Token) (w : World sv)
        → SparedBy now k e r
        → Holds sv ps now k e w
        → Holds sv ps now k e (perform sv ps now r w)
    unfolding perform register_route login_route forgot_password_route
    perform-Holds (register client given password) w a =
        limited-Holds sv ps now k e register_limit client (register_user sv now given password)
          (not_limit register_limit client) (register-Holds sv ps now k e given password) w
    perform-Holds (login client given password) w a =
        limited-Holds sv ps now k e login_limit client (login_user sv now given password)
          (not_limit login_limit client) (login-Holds sv ps now k e given password) w
    perform-Holds (refresh token) w a = refresh-Holds sv ps now k e token w
    perform-Holds (log_out refresh_token token) w a =
        logout-Holds sv ps now k e refresh_token token a w
    perform-Holds (verify token) w a = verify-Holds sv ps now k e spared token w
    perform-Holds (forgot client given) w a =
        limited-Holds sv ps now k e forgot_password_limit client (forgot_password sv now given)
          (not_limit forgot_password_limit client) (forgot-Holds sv ps now k e given) w
    perform-Holds (reset token password) w a = reset-Holds sv ps now k e spared token password w
    perform-Holds (update_me token email) w a = update_me-Holds sv ps now k e token email w
    perform-Holds (update_me_v2 token email) w a = λ h.
        subst (Holds sv ps now k e) (update_state sv w now token email)
          (update_me-Holds sv ps now k e token email w h)
    perform-Holds (change_password token old new) w a =
        change_password-Holds sv ps now k e token old new w
    perform-Holds (delete_me token) w a = delete_me-Holds sv ps now k e token w
    perform-Holds (set_status token id is_active is_verified) w a =
        set_status-Holds sv ps now k e token id is_active is_verified w
    perform-Holds (deactivate token id) w a = deactivate-Holds sv ps now k e token id w
    perform-Holds (assign token works reachable id role) w a =
        assign-Holds sv ps now k e token works reachable id role w
    perform-Holds (revoke token id role) w a = revoke-Holds sv ps now k e token id role w
    perform-Holds (sign_in_by provider) w a = oauth_login-Holds sv ps now k e not_state provider w
    perform-Holds (link_by provider token) w a =
        oauth_link-Holds sv ps now k e not_state provider token w
    perform-Holds (callback provider code state) w a =
        callback-Holds sv ps now k e not_state provider code state w
    perform-Holds (unlink provider token) w a = unlink-Holds sv ps now k e token provider w
    perform-Holds (websocket token works reachable socket messages) w a =
        websocket-Holds sv ps now k e token works reachable socket messages w
    perform-Holds clean_up w a = cleanup-Holds sv ps now k e w

  module _ (jti : String) where
    -- Only an identifier that is spent at the moment could be spent again.
    pub spent_spared :
        (now : ℕ) (s0 : sv.redis.State)
        → is_token_used sv.redis now jti s0 ≡ true
        → SparedBySpending sv ps now (used_key jti) (sv.redis.peek (used_key jti) s0)
    unfolding mark_token_used
    spent_spared now s0 used j zero s unused h = h
    spent_spared now s0 used j (suc ttl) s unused h = elim (Bool-cases (str_eq jti j)) [
      | inl same ↦ ground (arith, eq_iff jti j, is_token_used_local sv.redis now jti s s0 h)
      | inr differ ↦ ground (
        arith,
        str_eq-append_left "used:token:" jti j,
        sv.redis.peek-set (used_key jti) (used_key j) "1" (suc ttl) now s,
      )
    ]

    pub never_spent :
        (now : ℕ) (e : Option Entry) → SparedBySpending sv ps now (blacklist_key jti) e
    unfolding mark_token_used
    never_spent now e j zero s unused h = h
    never_spent now e j (suc ttl) s unused h = ground (
      arith,
      blacklist-ne-used jti j,
      sv.redis.peek-set (blacklist_key jti) (used_key j) "1" (suc ttl) now s,
    )

    -- A logout revokes identifiers and spends none.
    pub never_logged_out :
        (t : ℕ) (e : Option Entry) (r : Request sv.jwt.Token) → SparedBy t (used_key jti) e r
    never_logged_out t e (log_out refresh_token token) =
        (λ c f. used-ne-blacklist jti c.jti, λ q c same f. used-ne-blacklist jti c.jti)
    never_logged_out t e (register client given password) = tt
    never_logged_out t e (login client given password) = tt
    never_logged_out t e (refresh token) = tt
    never_logged_out t e (verify token) = tt
    never_logged_out t e (forgot client given) = tt
    never_logged_out t e (reset token password) = tt
    never_logged_out t e (update_me token email) = tt
    never_logged_out t e (update_me_v2 token email) = tt
    never_logged_out t e (change_password token old new) = tt
    never_logged_out t e (delete_me token) = tt
    never_logged_out t e (set_status token id is_active is_verified) = tt
    never_logged_out t e (deactivate token id) = tt
    never_logged_out t e (assign token works reachable id role) = tt
    never_logged_out t e (revoke token id role) = tt
    never_logged_out t e (sign_in_by provider) = tt
    never_logged_out t e (link_by provider token) = tt
    never_logged_out t e (callback provider code state) = tt
    never_logged_out t e (unlink provider token) = tt
    never_logged_out t e (websocket token works reachable socket messages) = tt
    never_logged_out t e clean_up = tt

    apart : (j : String) → jti ≢ j → str_eq (blacklist_key jti) (blacklist_key j) ≡ false
    apart j differ = ground (arith, str_eq-append_left "blacklist:token:" jti j, eq_iff jti j)

    -- A logout that leaves an identifier out revokes another.
    pub logs_out_others :
        (t : ℕ) (e : Option Entry) (r : Request sv.jwt.Token)
        → LeavesOut jti t r
        → SparedBy t (blacklist_key jti) e r
    logs_out_others t e (log_out refresh_token token) (access, refreshed) =
        (λ c f. apart c.jti (access c f), λ q c same f. apart c.jti (refreshed q c same f))
    logs_out_others t e (register client given password) a = tt
    logs_out_others t e (login client given password) a = tt
    logs_out_others t e (refresh token) a = tt
    logs_out_others t e (verify token) a = tt
    logs_out_others t e (forgot client given) a = tt
    logs_out_others t e (reset token password) a = tt
    logs_out_others t e (update_me token email) a = tt
    logs_out_others t e (update_me_v2 token email) a = tt
    logs_out_others t e (change_password token old new) a = tt
    logs_out_others t e (delete_me token) a = tt
    logs_out_others t e (set_status token id is_active is_verified) a = tt
    logs_out_others t e (deactivate token id) a = tt
    logs_out_others t e (assign token works reachable id role) a = tt
    logs_out_others t e (revoke token id role) a = tt
    logs_out_others t e (sign_in_by provider) a = tt
    logs_out_others t e (link_by provider token) a = tt
    logs_out_others t e (callback provider code state) a = tt
    logs_out_others t e (unlink provider token) a = tt
    logs_out_others t e (websocket token works reachable socket messages) a = tt
    logs_out_others t e clean_up a = tt
