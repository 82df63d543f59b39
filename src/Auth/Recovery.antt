-- ===== src/Auth/Recovery.antt =====
-- app/api/auth.py: e-mail verification and the password reset.
use fastapi_auth_api.Base.{
  ℕ, String, Bool, true, not, Option, none, some, if◌then◌else◌, ℤ, pos, negsuc,
}
use fastapi_auth_api.Http.{Action, http, pure, gets, modify, or_raise, raise_if, ◌>>=◌, ◌>>◌}
use fastapi_auth_api.Models.{User}
use fastapi_auth_api.Services.{Services, World, send_password_reset_email}
use fastapi_auth_api.Tokens.{
  TokenClaims, create_password_reset_token, decode_email_verification_token,
  decode_password_reset_token, remaining_ttl_seconds,
}
use fastapi_auth_api.Blacklist.{mark_token_used, is_token_used}
use fastapi_auth_api.RateLimit.{RateLimiter, check_limit}
use fastapi_auth_api.Dependencies.{user_by_email, hash_password, save_user, queue}
use fastapi_auth_api.Auth.Session.{passes}

abbrev pub forgot_password_limit : RateLimiter
forgot_password_limit = record { times = 5; seconds = 60; scope = "forgot-password" }

abbrev pub generic_message : String
generic_message = "If an account exists for this email, password reset instructions have been sent"

-- `db.get(User, user_id)`; no row has a negative key.
abbrev pub user_at : (sv : Services) → ℤ → World sv → Option User
user_at sv (pos n) w = sv.users.get n w.users
user_at sv (negsuc n) w = none

module _ (sv : Services) (now : ℕ) where
  abbrev pub is_used : String → World sv → Bool
  unfolding is_token_used
  is_used jti w = is_token_used sv.redis now jti w.redis

  abbrev pub spend : TokenClaims → World sv → World sv
  unfolding mark_token_used remaining_ttl_seconds
  spend claims w = record w {
    redis =
        mark_token_used sv.redis now claims.jti (remaining_ttl_seconds now claims.expires_at)
          w.redis;
  }

  -- The end of `verify_email`, for a user who is not verified yet.
  unfoldable pub verify_now : TokenClaims → User → Action (World sv) String
  unfolding is_token_used mark_token_used remaining_ttl_seconds
  verify_now claims user = do
    used ← gets (is_used claims.jti)
    raise_if used (http 401 "Invalid or expired verification token")
    modify (save_user sv (record user { is_verified = true }))
    modify (spend claims)
    pure "Email verified successfully"

  -- The message of the response.
  unfoldable pub verify_email : sv.jwt.Token → Action (World sv) String
  unfolding decode_email_verification_token verify_now
  verify_email token = do
    claims ←
        or_raise (decode_email_verification_token sv now token)
          (http 401 "Invalid or expired verification token")
    user_id ←
        or_raise (sv.runtime.int claims.subject) (http 401 "Invalid verification token subject")
    found ← gets (user_at sv user_id)
    user ← or_raise found (http 404 "User not found")
    if user.is_verified then pure "Email is already verified" else verify_now claims user

  unfoldable pub send_reset : Option User → Action (World sv) (Unit {0})
  unfolding create_password_reset_token
  send_reset none = pure tt
  send_reset (some user) =
      if user.is_active
      then (do
        token ← create_password_reset_token sv now (sv.runtime.str user.id)
        modify (queue sv (send_password_reset_email user.email token)))
      else pure tt

  unfoldable pub forgot_password : String → Action (World sv) String
  unfolding send_reset
  forgot_password given = do
    user ← gets (user_by_email sv (sv.runtime.lower given))
    send_reset user
    pure generic_message

  unfoldable pub reset_password : sv.jwt.Token → String → Action (World sv) String
  unfolding decode_password_reset_token is_token_used mark_token_used remaining_ttl_seconds
  reset_password token new_password = do
    claims ←
        or_raise (decode_password_reset_token sv now token)
          (http 401 "Invalid or expired password reset token")
    used ← gets (is_used claims.jti)
    raise_if used (http 401 "Invalid or expired password reset token")
    user_id ←
        or_raise (sv.runtime.int claims.subject) (http 401 "Invalid password reset token subject")
    found ← gets (user_at sv user_id)
    user ← or_raise found (http 404 "User not found")
    raise_if (not user.is_active) (http 403 "User account is inactive")
    raise_if (passes sv.passwords.verify new_password user.hashed_password)
        (http 400 "New password must be different")
    hashed ← hash_password sv new_password
    modify (save_user sv (record user { hashed_password = some hashed }))
    modify (spend claims)
    pure "Password reset successfully"

  -- POST /auth/forgot-password, from a client with this address.
  unfoldable pub forgot_password_route : Option String → String → Action (World sv) String
  unfolding forgot_password check_limit
  forgot_password_route client given = do
    check_limit sv now forgot_password_limit client
    forgot_password given
