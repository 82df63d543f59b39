-- ===== src/Api/Revoked/Others.antt =====
-- The requests that neither spend nor revoke a token leave the Redis entries of tokens as they are.
use fastapi_auth_api.Base.{
  ℕ, ◌≡◌, ap, ◌∙◌, String, Bool, false, Option, none, some, List, [], ◌∷◌, arith, str_eq,
}
use fastapi_auth_api.Http.{Action, ◌>>◌}
use fastapi_auth_api.Http.Rules.{Keeps, Keeps-bind}
use fastapi_auth_api.Models.{User}
use fastapi_auth_api.Services.{Services, World}
use fastapi_auth_api.Dependencies.{get_current_user_ws}
use fastapi_auth_api.Profile.{
  update_user_email, change_user_password, deactivate_user, update_given, update_current_user,
  change_current_user_password, deactivate_current_user,
}
use fastapi_auth_api.Realtime.{publish_to_user, Received, websocket_endpoint}
use fastapi_auth_api.Realtime.Stores.{stores-websocket_endpoint}
use fastapi_auth_api.Admin
use fastapi_auth_api.Admin.{
  update_user_status, assign_role, revoke_role, update_user_status_route, deactivate_user_route,
  assign_role_route, revoke_role_route,
}
use fastapi_auth_api.Oauth.{Providers, unlink_provider, unlink}
use fastapi_auth_api.Cleanup.{cleanup_unverified_users}
use fastapi_auth_api.Api.{websocket_session}
use fastapi_auth_api.Api.Callers.{by_permitted, by_me, get_current_user_ws-Admits, for_stored_user}
use fastapi_auth_api.RateLimit.{RateLimiter, limit_key, admit, check_limit}
use fastapi_auth_api.Services.Redis.{Entry}
use fastapi_auth_api.Auth.Register.{register_user}
use fastapi_auth_api.Auth.Session.{login_user, refresh_access_token}
use fastapi_auth_api.Auth.Recovery.{forgot_password}

module _ (sv : Services) (ps : Providers) (now : ℕ) (k : String) (e : Option Entry) where
  abbrev pub Holds : World sv → Type 0
  Holds w = sv.redis.peek k w.redis ≡ e

  pub settled :
      {s : sv.redis.State} (s' : sv.redis.State)
      → s ≡ s'
      → sv.redis.peek k s' ≡ e
      → sv.redis.peek k s ≡ e
  settled s' same h = ap (sv.redis.peek k) same ∙ h

  -- A limiter counts under a key of its own.
  admit-Keeps :
      (rl : RateLimiter) (key : String) (s : sv.redis.State)
      → str_eq k key ≡ false
      → sv.redis.peek k s ≡ e
      → sv.redis.peek k (admit sv.redis rl now key s).1 ≡ e
  unfolding admit
  admit-Keeps rl key s apart h = ground (
    arith,
    sv.redis.peek-incr_other k key now s apart,
    sv.redis.peek-expire k key rl.seconds now (sv.redis.incr key now s).1,
  )

  pub limited-Holds :
      {A : Type 0} (rl : RateLimiter) (client : Option String) (m : Action (World sv) A)
      → str_eq k (limit_key rl client) ≡ false
      → Keeps Holds m
      → Keeps Holds (check_limit sv now rl client >> m)
  unfolding check_limit
  limited-Holds rl client m apart keeps =
      Keeps-bind Holds (check_limit sv now rl client) (λ _. m)
        (λ w h. admit-Keeps rl (limit_key rl client) w.redis apart h) (λ _. keeps)

  pub register-Holds : (given password : String) → Keeps Holds (register_user sv now given password)
  unfolding register_user
  register-Holds given password w h = settled w.redis (ground arith) h

  pub login-Holds : (given password : String) → Keeps Holds (login_user sv now given password)
  unfolding login_user
  login-Holds given password w h = settled w.redis (ground arith) h

  pub refresh-Holds : (token : sv.jwt.Token) → Keeps Holds (refresh_access_token sv now token)
  unfolding refresh_access_token
  refresh-Holds token w h = settled w.redis (ground arith) h

  pub forgot-Holds : (given : String) → Keeps Holds (forgot_password sv now given)
  unfolding forgot_password
  forgot-Holds given w h = settled w.redis (ground arith) h

  module _ (token : sv.jwt.Token) where
    pub update_me-Holds :
        (email : Option String) → Keeps Holds (update_current_user sv now token email)
    unfolding update_current_user update_given update_user_email
    update_me-Holds none w h =
        by_me sv now token w Holds (λ user. update_given sv user none) (λ user stored. h) h
    update_me-Holds (some email) w h =
        by_me sv now token w Holds (λ user. update_given sv user (some email))
          (λ user stored. settled w.redis (ground arith) h) h

    pub change_password-Holds :
        (old new : String) → Keeps Holds (change_current_user_password sv now token old new)
    unfolding change_current_user_password change_user_password
    change_password-Holds old new w h =
        by_me sv now token w Holds (λ user. change_user_password sv user old new)
          (λ user stored. settled w.redis (ground arith) h) h

    pub delete_me-Holds : Keeps Holds (deactivate_current_user sv now token)
    unfolding deactivate_current_user deactivate_user
    delete_me-Holds w h = by_me sv now token w Holds (deactivate_user sv) (λ user stored. h) h

    pub set_status-Holds :
        (id : ℕ) (is_active is_verified : Option Bool)
        → Keeps Holds (update_user_status_route sv now token id is_active is_verified)
    unfolding update_user_status_route update_user_status
    set_status-Holds id is_active is_verified w h =
        by_permitted sv now token w Holds ("users:write" ∷ [])
          (update_user_status sv id is_active is_verified) (settled w.redis (ground arith) h) h

    pub deactivate-Holds : (id : ℕ) → Keeps Holds (deactivate_user_route sv now token id)
    unfolding deactivate_user_route Admin.deactivate_user
    deactivate-Holds id w h =
        by_permitted sv now token w Holds ("users:delete" ∷ []) (Admin.deactivate_user sv id)
          (settled w.redis (ground arith) h) h

    pub assign-Holds :
        (works : ℕ → Bool) (reachable : Bool) (id : ℕ) (name : String)
        → Keeps Holds (assign_role_route sv now token works reachable id name)
    unfolding assign_role_route assign_role publish_to_user
    assign-Holds works reachable id name w h =
        by_permitted sv now token w Holds ("roles:manage" ∷ [])
          (assign_role sv works reachable id name) (settled w.redis (ground arith) h) h

    pub revoke-Holds :
        (id : ℕ) (name : String) → Keeps Holds (revoke_role_route sv now token id name)
    unfolding revoke_role_route revoke_role
    revoke-Holds id name w h =
        by_permitted sv now token w Holds ("roles:manage" ∷ []) (revoke_role sv id name)
          (settled w.redis (ground arith) h) h

    pub unlink-Holds : (provider : String) → Keeps Holds (unlink_provider sv ps now provider token)
    unfolding unlink_provider unlink
    unlink-Holds provider w h =
        by_me sv now token w Holds (unlink sv ps now provider)
          (λ user stored. settled w.redis (ground arith) h) h

    pub websocket-Holds :
        (works : ℕ → Bool) (reachable : Bool) (socket : ℕ) (messages : List Received)
        → Keeps Holds (websocket_session sv ps now token works reachable socket messages)
    unfolding websocket_session
    websocket-Holds works reachable socket messages w h =
        let go = λ (user : User). websocket_endpoint sv works reachable user socket messages in
        for_stored_user sv now token w Holds (get_current_user_ws sv now token) go
          (get_current_user_ws-Admits sv now token w)
          (λ user stored.
            settled w.redis
              (ap (λ s. s.1) (stores-websocket_endpoint sv works reachable user socket messages w))
              h)
          h

  pub cleanup-Holds : (w : World sv) → Holds w → Holds (cleanup_unverified_users sv now w).1
  unfolding cleanup_unverified_users
  cleanup-Holds w h = h
