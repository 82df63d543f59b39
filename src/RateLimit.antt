-- ===== src/RateLimit.antt =====
-- app/services/rate_limit.py: a fixed-window limiter over Redis INCR and EXPIRE.
pub mod Window
use Prim.Native.String.{◌++◌}
use fastapi_auth_api.Base.{
  ℕ, String, Bool, true, false, Option, none, some, if◌then◌else◌, ltb, ◌==◌,
}
use fastapi_auth_api.Http.{Action, HttpException, http, ok, err}
use fastapi_auth_api.Services.{Services, World}
use fastapi_auth_api.Services.Redis.{Redis}

-- `RateLimiter(times, seconds, scope)`
pub record RateLimiter : Type 0 where
  pub times : ℕ
  pub seconds : ℕ
  pub scope : String

abbrev pub host_of : Option String → String
host_of none = "unknown"
host_of (some host) = host

abbrev pub limit_key : RateLimiter → Option String → String
limit_key rl client = "ratelimit:" ++ (rl.scope ++ (":" ++ host_of client))

abbrev pub too_many : HttpException
too_many = http 429 "Too many requests. Please try again later."

-- The commands of one call, and whether it lets the request through.
unfoldable pub admit : (r : Redis) → RateLimiter → ℕ → String → r.State → Bool × r.State
admit r rl now key s =
    let (current, s') = r.incr key now s in
    (
      if ltb rl.times current then false else true,
      if current == 1 then r.expire key rl.seconds now s' else s',
    )

unfoldable pub check_limit :
    (sv : Services) → ℕ → RateLimiter → Option String → Action (World sv) (Unit {0})
unfolding admit
check_limit sv now rl client w =
    let (admitted, s) = admit sv.redis rl now (limit_key rl client) w.redis in
    (if admitted then ok tt else err too_many, record w { redis = s })
