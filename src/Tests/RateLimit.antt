-- ===== src/Tests/RateLimit.antt =====
-- A limiter of two calls in ten seconds.
use fastapi_auth_api.Base.{◌≡◌, refl, [], ◌∷◌, arith}
use fastapi_auth_api.RateLimit.{RateLimiter}
use fastapi_auth_api.RateLimit.Window.{admitted, admitted_window}
use fastapi_auth_api.Memory.{memory_redis}
use fastapi_auth_api.Tests.Fixtures.{empty, noon}

abbrev twice : RateLimiter
twice = record { times = 2; seconds = 10; scope = "test" }

admitted_window_example :
    admitted memory_redis twice "k" (noon ∷ 3600000001 ∷ 3609999999 ∷ []) empty.redis ≡ 2
admitted_window_example =
    admitted_window memory_redis twice "k" noon (3600000001 ∷ 3609999999 ∷ []) empty.redis refl
      (omega arith, (omega arith, tt))
