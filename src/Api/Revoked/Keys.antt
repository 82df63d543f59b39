-- ===== src/Api/Revoked/Keys.antt =====
-- The four kinds of Redis keys of the application do not meet.
use Prim.Native.String.{◌++◌}
use fastapi_auth_api.Base.{
  ◌≡◌, ◌≢◌, ap, inl, inr, String, Option, false, arith, Bool-cases, str_eq, eq_iff,
}
use fastapi_auth_api.Blacklist.{blacklist_key, used_key}
use fastapi_auth_api.Blacklist.Revocation.{head_code, head_code-append}
use fastapi_auth_api.RateLimit.{RateLimiter, limit_key, host_of}
use fastapi_auth_api.Oauth.{state_key}

apart_by_head : (a b : String) → head_code a ≢ head_code b → str_eq a b ≡ false
apart_by_head a b h = elim (Bool-cases (str_eq a b)) [
  | inl e ↦ absurd (h (ap head_code ((eq_iff a b).0 e)))
  | inr e ↦ e
]

module _ (jti : String) where
  pub used-ne-limit :
      (rl : RateLimiter) (client : Option String)
      → str_eq (used_key jti) (limit_key rl client) ≡ false
  unfolding head_code
  used-ne-limit rl client = apart_by_head (used_key jti) (limit_key rl client) λ e. omega (
    arith,
    e,
    head_code-append "u" "sed:token:" jti,
    head_code-append "r" "atelimit:" (rl.scope ++ (":" ++ host_of client)),
  )

  pub used-ne-state : (state : String) → str_eq (used_key jti) (state_key state) ≡ false
  unfolding head_code
  used-ne-state state = apart_by_head (used_key jti) (state_key state) λ e.
      omega
        (arith, e, head_code-append "u" "sed:token:" jti, head_code-append "o" "auth:state:" state)

  pub blacklist-ne-limit :
      (rl : RateLimiter) (client : Option String)
      → str_eq (blacklist_key jti) (limit_key rl client) ≡ false
  unfolding head_code
  blacklist-ne-limit rl client = apart_by_head (blacklist_key jti) (limit_key rl client) λ e.
      omega (
        arith,
        e,
        head_code-append "b" "lacklist:token:" jti,
        head_code-append "r" "atelimit:" (rl.scope ++ (":" ++ host_of client)),
      )

  pub blacklist-ne-state : (state : String) → str_eq (blacklist_key jti) (state_key state) ≡ false
  unfolding head_code
  blacklist-ne-state state = apart_by_head (blacklist_key jti) (state_key state) λ e. omega (
    arith,
    e,
    head_code-append "b" "lacklist:token:" jti,
    head_code-append "o" "auth:state:" state,
  )
