-- ===== src/Services/Jwt.antt =====
-- python-jose, as app/auth/jwt.py calls it, under the one secret key of the settings.
use fastapi_auth_api.Base.{ℕ, ◌/◌, ◌≡◌, String, Option, none, some, if◌then◌else◌, ltb}
use fastapi_auth_api.Services.Redis.{second}

-- The dict that is signed; `iat` and `exp` are datetimes, in microseconds.
pub record Payload : Type 0 where
  pub sub : String
  pub type : String
  pub jti : String
  pub iat : ℕ
  pub exp : ℕ

-- A value of a decoded dict; `other` is a value of another type, or a missing key.
pub data ClaimValue : Type 0 where
  text : String → ClaimValue
  number : ℕ → ClaimValue
  other : ClaimValue

pub record Decoded : Type 0 where
  pub sub : ClaimValue
  pub type : ClaimValue
  pub jti : ClaimValue
  pub exp : ClaimValue

-- What comes back of a payload: its times are cut to whole seconds.
abbrev pub reread : Payload → Decoded
reread p = record {
  sub = text p.sub;
  type = text p.type;
  jti = text p.jti;
  exp = number (p.exp / second);
}

-- `decode` is `none` where jose raises a JWTError: a signature that does not verify, or an `exp`
-- that lies before the current second.
pub record Jwt : Type 1 where
  pub Token : Type 0
  pub encode : Payload → Token
  pub decode : ℕ → Token → Option Decoded
  pub decode-encode :
      (now : ℕ) (p : Payload)
      → decode now (encode p)
        ≡ (if ltb (p.exp / second) (now / second) then none else some (reread p))
