-- ===== src/Tokens.antt =====
-- app/auth/jwt.py: the four kinds of signed tokens.
pub mod Kinds
use fastapi_auth_api.Base.{
  ℕ, suc, ◌+◌, ◌-◌, ◌*◌, ◌/◌, String, Option, none, some, if◌then◌else◌, str_eq,
}
use fastapi_auth_api.Http.{Action, ok}
use fastapi_auth_api.Services.{Services, World}
use fastapi_auth_api.Services.Redis.{second}
use fastapi_auth_api.Services.Jwt.{Payload, ClaimValue, Decoded}

-- `expires_at` is a datetime.
pub record TokenClaims : Type 0 where
  pub subject : String
  pub jti : String
  pub expires_at : ℕ

abbrev pub minutes : ℕ → ℕ
minutes n = n * (60 * second)

abbrev pub days : ℕ → ℕ
days n = n * (86400 * second)

-- Each check that fails ends in `None`; the datetime is made of a whole number of seconds.
unfoldable pub read_claims :
    String → ClaimValue → ClaimValue → ClaimValue → ClaimValue → Option TokenClaims
read_claims expected (ClaimValue.text subject) (ClaimValue.text jti) (ClaimValue.text type)
      (ClaimValue.number exp) =
    if str_eq type expected
    then some (record { subject = subject; jti = jti; expires_at = exp * second })
    else none
read_claims expected _ _ _ _ = none

abbrev pub claims_of : String → Option Decoded → Option TokenClaims
claims_of expected none = none
claims_of expected (some d) = read_claims expected d.sub d.jti d.type d.exp

unfoldable pub remaining_ttl_seconds : ℕ → ℕ → ℕ
remaining_ttl_seconds now expires_at = (expires_at - now) / second

module _ (sv : Services) (now : ℕ) where
  abbrev pub payload : String → String → ℕ → World sv → Payload
  payload subject type delta w = record {
    sub = subject;
    type = type;
    jti = sv.runtime.uuid4 w.draws;
    iat = now;
    exp = now + delta;
  }

  unfoldable pub create_token : String → String → ℕ → Action (World sv) sv.jwt.Token
  create_token subject type delta w =
      (ok (sv.jwt.encode (payload subject type delta w)), record w { draws = suc w.draws })

  unfoldable pub create_access_token : String → Action (World sv) sv.jwt.Token
  unfolding create_token
  create_access_token subject =
      create_token subject "access" (minutes sv.access_token_expire_minutes)

  unfoldable pub create_refresh_token : String → Action (World sv) sv.jwt.Token
  unfolding create_token
  create_refresh_token subject = create_token subject "refresh" (days sv.refresh_token_expire_days)

  unfoldable pub create_email_verification_token : String → Action (World sv) sv.jwt.Token
  unfolding create_token
  create_email_verification_token subject = create_token subject "email_verification" (minutes 30)

  unfoldable pub create_password_reset_token : String → Action (World sv) sv.jwt.Token
  unfolding create_token
  create_password_reset_token subject = create_token subject "password_reset" (minutes 15)

  unfoldable pub decode_token : String → sv.jwt.Token → Option TokenClaims
  unfolding read_claims
  decode_token expected token = claims_of expected (sv.jwt.decode now token)

  unfoldable pub decode_access_token : sv.jwt.Token → Option TokenClaims
  unfolding decode_token
  decode_access_token = decode_token "access"

  unfoldable pub decode_refresh_token : sv.jwt.Token → Option TokenClaims
  unfolding decode_token
  decode_refresh_token = decode_token "refresh"

  unfoldable pub decode_email_verification_token : sv.jwt.Token → Option TokenClaims
  unfolding decode_token
  decode_email_verification_token = decode_token "email_verification"

  unfoldable pub decode_password_reset_token : sv.jwt.Token → Option TokenClaims
  unfolding decode_token
  decode_password_reset_token = decode_token "password_reset"
