-- ===== src/Blacklist.antt =====
-- app/services/token_blacklist.py: revoked tokens and spent single-use tokens, as keys of Redis
-- that expire with the token.
pub mod Revocation
use fastapi_auth_api.Base.{ℕ, zero, suc, String, Bool}
use fastapi_auth_api.Services.Redis.{Redis}
use Prim.Native.String.{◌++◌}

abbrev pub blacklist_key : String → String
blacklist_key jti = "blacklist:token:" ++ jti

abbrev pub used_key : String → String
used_key jti = "used:token:" ++ jti

module _ (r : Redis) (now : ℕ) where
  -- A time to live of zero stores nothing.
  unfoldable pub blacklist_token : String → ℕ → r.State → r.State
  blacklist_token jti zero s = s
  blacklist_token jti (suc ttl) s = r.set (blacklist_key jti) "1" (suc ttl) now s

  unfoldable pub is_token_blacklisted : String → r.State → Bool
  is_token_blacklisted jti s = r.exists (blacklist_key jti) now s

  unfoldable pub mark_token_used : String → ℕ → r.State → r.State
  mark_token_used jti zero s = s
  mark_token_used jti (suc ttl) s = r.set (used_key jti) "1" (suc ttl) now s

  unfoldable pub is_token_used : String → r.State → Bool
  is_token_used jti s = r.exists (used_key jti) now s
