-- ===== src/Tokens/Kinds.antt =====
-- How long a token of app/auth/jwt.py is accepted, and by which decoder.
use fastapi_auth_api.Base.{
  ℕ, ◌+◌, ◌*◌, ◌/◌, ◌≤◌, ◌≡◌, String, Option, none, some, arith, if◌then◌else◌, ltb, str_eq,
}
use fastapi_auth_api.Http.{Returns}
use fastapi_auth_api.Services.{Services, World}
use fastapi_auth_api.Services.Redis.{second}
use fastapi_auth_api.Services.Jwt.{Payload}
use fastapi_auth_api.Tokens.{
  TokenClaims, minutes, days, payload, create_access_token, create_refresh_token,
  create_email_verification_token, create_password_reset_token, decode_token, decode_access_token,
  decode_refresh_token, decode_email_verification_token, decode_password_reset_token,
}

-- The claims that a payload carries; the expiry is cut to the second.
abbrev pub claims_in : Payload → TokenClaims
claims_in p = record { subject = p.sub; jti = p.jti; expires_at = p.exp / second * second }

abbrev pub IsCurrent : ℕ → Payload → Type 0
IsCurrent t p = t / second ≤ p.exp / second

module _ (sv : Services) where
  -- A signed payload decodes to its claims while it is current, under its own type alone.
  pub decode_token-encode :
      (t : ℕ) (expected : String) (p : Payload)
      → decode_token sv t expected (sv.jwt.encode p) ≡ (
          if ltb (p.exp / second) (t / second)
          then none
          else if str_eq p.type expected
          then some (claims_in p)
          else none)
  unfolding decode_token
  decode_token-encode t expected p = ground (arith, sv.jwt.decode-encode t p)

-- The four decoders at one token.
pub record Accepted : Type 0 where
  pub access : Option TokenClaims
  pub refresh : Option TokenClaims
  pub email_verification : Option TokenClaims
  pub password_reset : Option TokenClaims

abbrev pub rejected : Accepted
rejected = record {
  access = none;
  refresh = none;
  email_verification = none;
  password_reset = none;
}

module _ (sv : Services) where
  unfoldable pub accepted : ℕ → sv.jwt.Token → Accepted
  unfolding decode_access_token decode_refresh_token decode_email_verification_token
      decode_password_reset_token
  accepted t token = record {
    access = decode_access_token sv t token;
    refresh = decode_refresh_token sv t token;
    email_verification = decode_email_verification_token sv t token;
    password_reset = decode_password_reset_token sv t token;
  }

  -- The claims of a token for this subject that was made at `now` and lasts for `delta`, as long
  -- as the second of its expiry is not over.
  abbrev pub while_current : (now t delta : ℕ) → String → World sv → Option TokenClaims
  while_current now t delta subject w =
      if ltb ((now + delta) / second) (t / second)
      then none
      else some (record {
        subject = subject;
        jti = sv.runtime.uuid4 w.draws;
        expires_at = (now + delta) / second * second;
      })

  module _ (now t : ℕ) (subject : String) (w : World sv) where
    pub accepted-encode :
        (type : String) (delta : ℕ)
        → let p = payload sv now subject type delta w in
          let at : String → Option TokenClaims = λ expected.
            if ltb (p.exp / second) (t / second)
            then none
            else if str_eq type expected
            then some (claims_in p)
            else none in
          accepted t (sv.jwt.encode p) ≡ record {
            access = at "access";
            refresh = at "refresh";
            email_verification = at "email_verification";
            password_reset = at "password_reset";
          }
    unfolding accepted
    accepted-encode type delta = ground (
      arith,
      decode_token-encode sv t "access" (payload sv now subject type delta w),
      decode_token-encode sv t "refresh" (payload sv now subject type delta w),
      decode_token-encode sv t "email_verification" (payload sv now subject type delta w),
      decode_token-encode sv t "password_reset" (payload sv now subject type delta w),
    )

    -- Each of the four functions that create a token returns one, and at every later or earlier
    -- time `t` exactly its own decoder accepts it, with the subject that was given, through the
    -- second of its expiry and not after; the other three decoders reject it at all times.
    pub create_token_kinds :
        Returns
          (λ token. accepted t token ≡ record rejected {
            access = while_current now t (minutes sv.access_token_expire_minutes) subject w;
          })
          (create_access_token sv now subject w)
        × Returns
            (λ token. accepted t token ≡ record rejected {
              refresh = while_current now t (days sv.refresh_token_expire_days) subject w;
            })
            (create_refresh_token sv now subject w)
        × Returns
            (λ token.
              accepted t token
              ≡ record rejected { email_verification = while_current now t (minutes 30) subject w })
            (create_email_verification_token sv now subject w)
        × Returns
            (λ token.
              accepted t token
              ≡ record rejected { password_reset = while_current now t (minutes 15) subject w })
            (create_password_reset_token sv now subject w)
    unfolding create_access_token create_refresh_token create_email_verification_token
        create_password_reset_token
    create_token_kinds = (
      ground (arith, accepted-encode "access" (minutes sv.access_token_expire_minutes)),
      ground (arith, accepted-encode "refresh" (days sv.refresh_token_expire_days)),
      ground (arith, accepted-encode "email_verification" (minutes 30)),
      ground (arith, accepted-encode "password_reset" (minutes 15)),
    )
