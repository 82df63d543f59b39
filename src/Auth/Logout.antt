-- ===== src/Auth/Logout.antt =====
-- What a logout does to the two tokens of a session.
use fastapi_auth_api.Base.{
  ℕ, ◌+◌, ◌-◌, ◌*◌, ◌/◌, ◌≤◌, ◌<◌, ◌≡◌, ◌≢◌, String, true, false, some, arith, eq_iff,
}
use package.text.Mathlib.TextPositions.{eq_refl}
use fastapi_auth_api.Http.{ok, err, http}
use fastapi_auth_api.Models.{User}
use fastapi_auth_api.Services.{Services, World}
use fastapi_auth_api.Services.Redis.{second}
use fastapi_auth_api.Services.Jwt.{Payload}
use fastapi_auth_api.Tokens.Kinds.{IsCurrent, decode_token-encode}
use fastapi_auth_api.Blacklist.{blacklist_key, is_token_blacklisted, blacklist_token}
use fastapi_auth_api.Blacklist.Revocation.{blacklist_token_effect, is_token_blacklisted_local}
use fastapi_auth_api.Dependencies.{bearer, user_by_email, get_current_user}
use fastapi_auth_api.Auth.Session.{logout, refresh_access_token}

abbrev pub ttl_at : ℕ → Payload → ℕ
ttl_at now p = (p.exp / second * second - now) / second

-- The end of the time for which a logout at `now` keeps the token of this payload revoked.
abbrev pub revoked_until : ℕ → Payload → ℕ
revoked_until now p = now + ttl_at now p * second

module _ (sv : Services) (now : ℕ) (p q : Payload) (w : World sv) where
  abbrev pub after_logout : World sv
  after_logout = (logout sv now (some (sv.jwt.encode q)) (sv.jwt.encode p) w).1

  abbrev both_revoked : World sv
  both_revoked = record w {
    redis =
        blacklist_token sv.redis now q.jti (ttl_at now q)
          (blacklist_token sv.redis now p.jti (ttl_at now p) w.redis);
  }

  -- The Redis entry of the identifier is still the one that the logout left.
  abbrev pub StillStored : String → World sv → Type 0
  StillStored jti v =
      sv.redis.peek (blacklist_key jti) v.redis
      ≡ sv.redis.peek (blacklist_key jti) after_logout.redis

  module _ (access : p.type ≡ "access") (refresh : q.type ≡ "refresh") (apart : q.jti ≢ p.jti)
      (current : IsCurrent now p) (q_current : IsCurrent now q) where
    logout_lem : logout sv now (some (sv.jwt.encode q)) (sv.jwt.encode p) w ≡ (ok tt, both_revoked)
    unfolding logout
    logout_lem = ground (
      arith,
      decode_token-encode sv now "access" p,
      decode_token-encode sv now "refresh" q,
      eq_iff p.type "access",
      eq_iff q.type "refresh",
    )

    revoked_access :
        (t : ℕ)
        → now ≤ t
        → t < revoked_until now p
        → is_token_blacklisted sv.redis t p.jti after_logout.redis ≡ true
    revoked_access t later h =
        rw (logout_lem, after_logout)
          (ground (
            arith,
            blacklist_token_effect sv.redis now t p.jti q.jti
                (blacklist_token sv.redis now p.jti (ttl_at now p) w.redis) (ttl_at now q),
            blacklist_token_effect sv.redis now t p.jti p.jti w.redis (ttl_at now p),
            eq_iff p.jti q.jti,
            eq_refl p.jti,
          ))

    revoked_refresh :
        (t : ℕ)
        → now ≤ t
        → t < revoked_until now q
        → is_token_blacklisted sv.redis t q.jti after_logout.redis ≡ true
    revoked_refresh t later h =
        rw (logout_lem, after_logout)
          (ground (
            arith,
            blacklist_token_effect sv.redis now t q.jti q.jti
                (blacklist_token sv.redis now p.jti (ttl_at now p) w.redis) (ttl_at now q),
            eq_refl q.jti,
          ))

    not_revoked_access :
        (t : ℕ)
        → now ≤ t
        → p.exp / second * second ≤ t
        → is_token_blacklisted sv.redis t p.jti w.redis ≡ false
        → is_token_blacklisted sv.redis t p.jti after_logout.redis ≡ false
    not_revoked_access t later over fresh =
        rw (logout_lem, after_logout)
          (ground (
            arith,
            blacklist_token_effect sv.redis now t p.jti q.jti
                (blacklist_token sv.redis now p.jti (ttl_at now p) w.redis) (ttl_at now q),
            blacklist_token_effect sv.redis now t p.jti p.jti w.redis (ttl_at now p),
            eq_iff p.jti q.jti,
            eq_refl p.jti,
          ))

    -- From a logout with both tokens of a session until the last whole second before the expiry of
    -- the access token, that token is refused as revoked, in every state that still holds the entry.
    pub logout_revokes_access :
        (t : ℕ) (v : World sv)
        → now ≤ t
        → t < revoked_until now p
        → StillStored p.jti v
        → ((logout sv now (some (sv.jwt.encode q)) (sv.jwt.encode p) w).0 ≡ ok tt)
          × (get_current_user sv t (sv.jwt.encode p) v ≡ (err (bearer "Token has been revoked"), v))
    unfolding get_current_user
    logout_revokes_access t v later h kept = (
      rw logout_lem,
      ground (
        arith,
        decode_token-encode sv t "access" p,
        eq_iff p.type "access",
        is_token_blacklisted_local sv.redis t p.jti v.redis after_logout.redis kept,
        revoked_access t later h,
      ),
    )

    -- The same for the refresh token, which then yields no access token.
    pub logout_revokes_refresh :
        (t : ℕ) (v : World sv)
        → now ≤ t
        → t < revoked_until now q
        → StillStored q.jti v
        → ((logout sv now (some (sv.jwt.encode q)) (sv.jwt.encode p) w).0 ≡ ok tt)
          × (refresh_access_token sv t (sv.jwt.encode q) v
              ≡ (err (http 401 "Invalid or expired refresh token"), v))
    unfolding refresh_access_token
    logout_revokes_refresh t v later h kept = (
      rw logout_lem,
      ground (
        arith,
        decode_token-encode sv t "refresh" q,
        eq_iff q.type "refresh",
        is_token_blacklisted_local sv.redis t q.jti v.redis after_logout.redis kept,
        revoked_refresh t later h,
      ),
    )

    -- In the second of its expiry a revoked access token is let through again, if its address
    -- belongs to an active account: the entry in Redis is gone and the token is still current.
    pub logout_gap :
        (t : ℕ) (user : User)
        → now ≤ t
        → p.exp / second * second ≤ t
        → t / second ≡ p.exp / second
        → is_token_blacklisted sv.redis t p.jti w.redis ≡ false
        → user_by_email sv p.sub after_logout ≡ some user
        → user.is_active ≡ true
        → get_current_user sv t (sv.jwt.encode p) after_logout ≡ (ok user, after_logout)
    unfolding get_current_user
    logout_gap t user later over same fresh found active = ground (
      arith,
      decode_token-encode sv t "access" p,
      eq_iff p.type "access",
      not_revoked_access t later over fresh,
    )
