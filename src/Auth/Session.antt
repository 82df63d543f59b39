-- ===== src/Auth/Session.antt =====
-- app/api/auth.py: the handlers that open, renew and end a session.
use fastapi_auth_api.Base.{ℕ, String, Bool, false, not, Option, none, some}
use fastapi_auth_api.Http.{Action, http, pure, gets, modify, or_raise, raise_if, ◌>>=◌, ◌>>◌}
use fastapi_auth_api.Services.{Services, World}
use fastapi_auth_api.Tokens.{
  TokenClaims, create_access_token, create_refresh_token, decode_access_token, decode_refresh_token,
  remaining_ttl_seconds,
}
use fastapi_auth_api.Blacklist.{blacklist_token, is_token_blacklisted}
use fastapi_auth_api.RateLimit.{RateLimiter, check_limit}
use fastapi_auth_api.Dependencies.{bearer, user_by_email, is_revoked}

pub record TokenResponse (Token : Type 0) : Type 0 where
  pub access_token : Token
  pub refresh_token : Token
  pub token_type : String

pub record AccessTokenResponse (Token : Type 0) : Type 0 where
  pub access_token : Token
  pub token_type : String

abbrev pub login_limit : RateLimiter
login_limit = record { times = 5; seconds = 60; scope = "login" }

-- The password check of the login; an account without a password never passes.
abbrev pub passes : (String → String → Bool) → String → Option String → Bool
passes verify password none = false
passes verify password (some hashed) = verify password hashed

module _ (sv : Services) (now : ℕ) where
  unfoldable pub login_user : String → String → Action (World sv) (TokenResponse sv.jwt.Token)
  unfolding create_access_token create_refresh_token
  login_user given password = do
    let email = sv.runtime.lower given
    found ← gets (user_by_email sv email)
    user ← or_raise found (bearer "Invalid email or password")
    raise_if (not (passes sv.passwords.verify password user.hashed_password))
        (bearer "Invalid email or password")
    raise_if (not user.is_verified) (http 403 "Email address is not verified")
    raise_if (not user.is_active) (http 403 "User account is inactive")
    access_token ← create_access_token sv now user.email
    refresh_token ← create_refresh_token sv now user.email
    pure (record {
      access_token = access_token;
      refresh_token = refresh_token;
      token_type = "bearer";
    })

  unfoldable pub refresh_access_token :
      sv.jwt.Token → Action (World sv) (AccessTokenResponse sv.jwt.Token)
  unfolding create_access_token decode_refresh_token is_token_blacklisted
  refresh_access_token token = do
    claims ←
        or_raise (decode_refresh_token sv now token) (http 401 "Invalid or expired refresh token")
    revoked ← gets (is_revoked sv now claims.jti)
    raise_if revoked (http 401 "Invalid or expired refresh token")
    found ← gets (user_by_email sv claims.subject)
    user ← or_raise found (http 401 "User is unavailable")
    raise_if (not user.is_active) (http 401 "User is unavailable")
    access_token ← create_access_token sv now user.email
    pure (record { access_token = access_token; token_type = "bearer" })

  abbrev pub revoke : TokenClaims → World sv → World sv
  unfolding blacklist_token remaining_ttl_seconds
  revoke claims w = record w {
    redis =
        blacklist_token sv.redis now claims.jti (remaining_ttl_seconds now claims.expires_at)
          w.redis;
  }

  abbrev pub revoke_decoded : Option TokenClaims → World sv → World sv
  unfolding blacklist_token remaining_ttl_seconds
  revoke_decoded none w = w
  revoke_decoded (some claims) w = revoke claims w

  -- The refresh token of the body, if there is one that decodes.
  abbrev pub revoke_refresh : Option sv.jwt.Token → World sv → World sv
  unfolding blacklist_token remaining_ttl_seconds decode_refresh_token
  revoke_refresh none w = w
  revoke_refresh (some token) w = revoke_decoded (decode_refresh_token sv now token) w

  unfoldable pub logout : Option sv.jwt.Token → sv.jwt.Token → Action (World sv) (Unit {0})
  unfolding decode_access_token decode_refresh_token blacklist_token remaining_ttl_seconds
  logout refresh_token token = do
    access_claims ←
        or_raise (decode_access_token sv now token) (bearer "Invalid or expired access token")
    modify (revoke access_claims)
    modify (revoke_refresh refresh_token)

  -- POST /auth/login, from a client with this address.
  unfoldable pub login_route :
      Option String → String → String → Action (World sv) (TokenResponse sv.jwt.Token)
  unfolding login_user check_limit
  login_route client given password = do
    check_limit sv now login_limit client
    login_user given password
