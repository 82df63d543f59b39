-- ===== src/Api/Revoked/Tokens.antt =====
-- The requests of an OAuth sign-in, which keep their state in Redis, and those that spend or revoke
-- a token.
use Prim.Native.String.{◌++◌ as ◌&◌}
use fastapi_auth_api.Base.{
  ℕ, ◌≡◌, refl, String, false, inl, inr, Option, none, some, arith, Option-cases, Bool-cases,
  str_eq, zero, suc,
}
use fastapi_auth_api.Http.{◌>>=◌, ◌>>◌}
use fastapi_auth_api.Http.Rules.{Keeps, Keeps-bind}
use fastapi_auth_api.Services.{Services, World}
use fastapi_auth_api.Oauth.{
  Providers, require_client, start, oauth_login, oauth_link, take_state, finish, oauth_callback,
}
use fastapi_auth_api.Api.Callers.{by_me}
use fastapi_auth_api.Services.Redis.{Entry}
use fastapi_auth_api.Oauth.State.{redis-finish}
use fastapi_auth_api.Oauth.{state_key, state_ttl_seconds}
use fastapi_auth_api.Tokens.{
  TokenClaims, decode_access_token, decode_refresh_token, decode_email_verification_token,
  decode_password_reset_token, remaining_ttl_seconds,
}
use fastapi_auth_api.Blacklist.{blacklist_key, blacklist_token, mark_token_used, is_token_used}
use fastapi_auth_api.Auth.Session.{logout, revoke_refresh}
use fastapi_auth_api.Auth.Recovery.{verify_email, verify_now, reset_password}
use fastapi_auth_api.Api.Revoked.Others.{Holds, settled}

module _ (sv : Services) (ps : Providers) (now : ℕ) (k : String) (e : Option Entry)
    (not_state : (state : String) → str_eq k (state_key state) ≡ false) where
  abbrev Kept : World sv → Type 0
  Kept = Holds sv ps now k e

  start-Holds : (provider purpose : String) → Keeps Kept (start sv ps now provider purpose)
  unfolding start
  start-Holds provider purpose w h =
      let key = state_key (ps.token_urlsafe w.draws) in
      ground (
        arith,
        not_state (ps.token_urlsafe w.draws),
        sv.redis.peek-set k key purpose state_ttl_seconds now w.redis,
      )

  require-Holds : (provider : String) → Keeps Kept (require_client sv ps now provider)
  unfolding require_client
  require-Holds provider w h = settled sv ps now k e w.redis (ground arith) h

  take_state-Holds : (state : String) → Keeps Kept (take_state sv ps now state)
  unfolding take_state
  take_state-Holds state w h =
      ground (arith, not_state state, sv.redis.peek-delete k (state_key state) w.redis)

  pub oauth_login-Holds : (provider : String) → Keeps Kept (oauth_login sv ps now provider)
  unfolding oauth_login
  oauth_login-Holds provider =
      Keeps-bind Kept (require_client sv ps now provider) (λ _. start sv ps now provider "login")
        (require-Holds provider) (λ _. start-Holds provider "login")

  pub oauth_link-Holds :
      (provider : String) (token : sv.jwt.Token) → Keeps Kept (oauth_link sv ps now provider token)
  unfolding oauth_link
  oauth_link-Holds provider token w h =
      by_me sv now token w Kept
        (λ user.
          require_client sv ps now provider
          >> start sv ps now provider ("link:" & sv.runtime.str user.id))
        (λ user stored.
          Keeps-bind Kept (require_client sv ps now provider)
            (λ _. start sv ps now provider ("link:" & sv.runtime.str user.id))
            (require-Holds provider) (λ _. start-Holds provider ("link:" & sv.runtime.str user.id))
            w h)
        h

  pub callback-Holds :
      (provider code state : String) → Keeps Kept (oauth_callback sv ps now provider code state)
  unfolding oauth_callback
  callback-Holds provider code state =
      Keeps-bind Kept (require_client sv ps now provider)
        (λ _. take_state sv ps now state >>= finish sv ps now provider code)
        (require-Holds provider)
        (λ _.
          Keeps-bind Kept (take_state sv ps now state) (finish sv ps now provider code)
            (take_state-Holds state)
            (λ value w h.
              settled sv ps now k e w.redis (redis-finish sv ps now provider code value w) h))

module _ (sv : Services) (ps : Providers) (now : ℕ) (k : String) (e : Option Entry) where
  -- Spending an identifier that is not spent leaves the entry.
  abbrev pub SparedBySpending : Type 0
  SparedBySpending =
      (jti : String) (ttl : ℕ) (s : sv.redis.State)
      → is_token_used sv.redis now jti s ≡ false
      → sv.redis.peek k s ≡ e
      → sv.redis.peek k (mark_token_used sv.redis now jti ttl s) ≡ e

  module _ (spared : SparedBySpending) where
    pub verify-Holds :
        (token : sv.jwt.Token) → Keeps (Holds sv ps now k e) (verify_email sv now token)
    unfolding verify_email verify_now
    verify-Holds token w h = elim (Option-cases (decode_email_verification_token sv now token)) [
      | inl f ↦ settled sv ps now k e w.redis (ground (arith, f)) h
      | inr (c, f) ↦ elim (Bool-cases (is_token_used sv.redis now c.jti w.redis)) [
        | inl used ↦ settled sv ps now k e w.redis (ground (arith, f, used)) h
        | inr unused ↦ ground (
          arith,
          f,
          unused,
          spared c.jti (remaining_ttl_seconds now c.expires_at) w.redis unused h,
        )
      ]
    ]

    pub reset-Holds :
        (token : sv.jwt.Token) (password : String)
        → Keeps (Holds sv ps now k e) (reset_password sv now token password)
    unfolding reset_password
    reset-Holds token password w h =
        elim (Option-cases (decode_password_reset_token sv now token)) [
          | inl f ↦ settled sv ps now k e w.redis (ground (arith, f)) h
          | inr (c, f) ↦ elim (Bool-cases (is_token_used sv.redis now c.jti w.redis)) [
            | inl used ↦ settled sv ps now k e w.redis (ground (arith, f, used)) h
            | inr unused ↦ ground (
              arith,
              f,
              unused,
              spared c.jti (remaining_ttl_seconds now c.expires_at) w.redis unused h,
            )
          ]
        ]

  -- The identifiers of the two tokens of a logout are no part of the key.
  abbrev pub LogsOutOthers : Option sv.jwt.Token → sv.jwt.Token → Type 0
  LogsOutOthers refresh_token token =
      ((c : TokenClaims)
        → decode_access_token sv now token ≡ some c
        → str_eq k (blacklist_key c.jti) ≡ false)
      × ((q : sv.jwt.Token) (c : TokenClaims)
          → refresh_token ≡ some q
          → decode_refresh_token sv now q ≡ some c
          → str_eq k (blacklist_key c.jti) ≡ false)

  revoking :
      (jti : String) (ttl : ℕ) (s : sv.redis.State)
      → str_eq k (blacklist_key jti) ≡ false
      → sv.redis.peek k s ≡ e
      → sv.redis.peek k (blacklist_token sv.redis now jti ttl s) ≡ e
  unfolding blacklist_token
  revoking jti zero s apart h = h
  revoking jti (suc ttl) s apart h =
      ground (arith, sv.redis.peek-set k (blacklist_key jti) "1" (suc ttl) now s)

  revoke_refresh-Holds :
      (refresh_token : Option sv.jwt.Token) (w : World sv)
      → ((q : sv.jwt.Token) (c : TokenClaims)
          → refresh_token ≡ some q
          → decode_refresh_token sv now q ≡ some c
          → str_eq k (blacklist_key c.jti) ≡ false)
      → Holds sv ps now k e w
      → Holds sv ps now k e (revoke_refresh sv now refresh_token w)
  unfolding decode_refresh_token blacklist_token remaining_ttl_seconds
  revoke_refresh-Holds none w apart h = h
  revoke_refresh-Holds (some q) w apart h = elim (Option-cases (decode_refresh_token sv now q)) [
    | inl f ↦ settled sv ps now k e w.redis (ground (arith, f)) h
    | inr (c, f) ↦
        settled sv ps now k e
          (blacklist_token sv.redis now c.jti (remaining_ttl_seconds now c.expires_at) w.redis)
          (ground (arith, f))
          (revoking c.jti (remaining_ttl_seconds now c.expires_at) w.redis (apart q c refl f) h)
  ]

  pub logout-Holds :
      (refresh_token : Option sv.jwt.Token) (token : sv.jwt.Token)
      → LogsOutOthers refresh_token token
      → Keeps (Holds sv ps now k e) (logout sv now refresh_token token)
  unfolding logout
  logout-Holds refresh_token token apart w h =
      elim (Option-cases (decode_access_token sv now token)) [
        | inl f ↦ settled sv ps now k e w.redis (ground (arith, f)) h
        | inr (c, f) ↦
            let ttl = remaining_ttl_seconds now c.expires_at in
            let once = revoking c.jti ttl w.redis (apart.0 c f) h in
            let w1 : World sv = record w {
              redis = blacklist_token sv.redis now c.jti ttl w.redis;
            } in
            settled sv ps now k e (revoke_refresh sv now refresh_token w1).redis (ground (arith, f))
              (revoke_refresh-Holds refresh_token w1 apart.1 once)
      ]
