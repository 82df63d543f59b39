-- ===== src/Auth/Reset.antt =====
-- The password reset: who is mailed a token, what the token does, and that it works once.
use fastapi_auth_api.Base.{
  ℕ, suc, ◌≤◌, ◌<◌, ◌≡◌, refl, String, true, false, inl, inr, ◌⊎◌, some, [], ◌∷◌, ◌++◌, arith,
  Option-cases, Bool-cases, ◌==◌, if◌then◌else◌, eq_iff, pos, negsuc,
}
use package.text.Mathlib.TextPositions.{eq_refl}
use fastapi_auth_api.Http.{ok, err, HttpException, http}
use fastapi_auth_api.Models.{User}
use fastapi_auth_api.Services.{Services, World, send_password_reset_email}
use fastapi_auth_api.Services.Jwt.{Payload}
use fastapi_auth_api.Tokens.{
  TokenClaims, minutes, payload, decode_password_reset_token, remaining_ttl_seconds,
}
use fastapi_auth_api.Tokens.Kinds.{
  accepted, rejected, while_current, accepted-encode, decode_token-encode, claims_in,
}
use fastapi_auth_api.Blacklist.{used_key, is_token_used, mark_token_used}
use fastapi_auth_api.Blacklist.Revocation.{mark_token_used_effect, is_token_used_local}
use fastapi_auth_api.Accounts.{get_self, IsConsistent, update-IsConsistent}
use fastapi_auth_api.Dependencies.{user_by_email}
use fastapi_auth_api.Auth.Session.{passes}
use fastapi_auth_api.Auth.Logout.{ttl_at, revoked_until}
use fastapi_auth_api.Auth.Recovery.{generic_message, forgot_password, reset_password}

module _ (sv : Services) (now : ℕ) (given : String) (w : World sv) where
  abbrev email : String
  email = sv.runtime.lower given

  -- The answer to a forgotten password is the same for every address. Only an active account is
  -- mailed, at its own address, and the token names its id and is accepted by the password reset
  -- alone; nothing but the queue and the number of draws changes, and for any other address
  -- nothing changes at all.
  pub forgot_password_uniform :
      (t : ℕ)
      → ((forgot_password sv now given w).0 ≡ ok generic_message)
        × (((forgot_password sv now given w).1 ≡ w)
            ⊎ ((user : User) × (token : sv.jwt.Token) × (user_by_email sv email w ≡ some user)
                × (user.is_active ≡ true)
                × ((forgot_password sv now given w).1 ≡ record w {
                  draws = suc w.draws;
                  tasks = w.tasks ++ send_password_reset_email user.email token ∷ [];
                })
                × (accepted sv t token ≡ record rejected {
                  password_reset = while_current sv now t (minutes 15) (sv.runtime.str user.id) w;
                })))
  unfolding forgot_password
  forgot_password_uniform t = elim (Option-cases (user_by_email sv email w)) [
    | inl e ↦ (ground arith, inl (ground arith))
    | inr (user, e) ↦ elim (Bool-cases user.is_active) [
      | inr inactive ↦ (ground arith, inl (ground arith))
      | inl active ↦ (
        ground arith,
        inr (
          user,
          sv.jwt.encode (payload sv now (sv.runtime.str user.id) "password_reset" (minutes 15) w),
          e,
          active,
          ground arith,
          ground (
            arith,
            accepted-encode sv now t (sv.runtime.str user.id) w "password_reset" (minutes 15),
          ),
        ),
      )
    ]
  ]

module _ (sv : Services) (now : ℕ) (token : sv.jwt.Token) (new_password : String)
    (w : World sv) where
  -- The account that a reset changes: the token is a current, unspent reset token that names its
  -- id, and it is active with another password, or with none.
  pub record MayReset (user : User) : Type 0 where
    pub claims : TokenClaims
    pub decoded : decode_password_reset_token sv now token ≡ some claims
    pub unspent : is_token_used sv.redis now claims.jti w.redis ≡ false
    pub names : sv.runtime.int claims.subject ≡ some (pos user.id)
    pub stored : sv.users.get user.id w.users ≡ some user
    pub active : user.is_active ≡ true
    pub different : passes sv.passwords.verify new_password user.hashed_password ≡ false

  abbrev pub with_password : User → User
  with_password user = record user {
    hashed_password = some (sv.passwords.hash w.draws new_password);
  }

  abbrev pub after_reset : TokenClaims → User → World sv
  after_reset claims user = record w {
    users = sv.users.save (with_password user) w.users;
    draws = suc w.draws;
    redis =
        mark_token_used sv.redis now claims.jti (remaining_ttl_seconds now claims.expires_at)
          w.redis;
  }

  reset_password_inversion :
      {message : String} {w' : World sv}
      → reset_password sv now token new_password w ≡ (ok message, w')
      → (user : User) × (may : MayReset user) × (w' ≡ after_reset may.claims user)
  unfolding reset_password
  reset_password_inversion h = elim (Option-cases (decode_password_reset_token sv now token)) [
    | inl e ↦ absurd (ground arith)
    | inr (c, e) ↦ elim (Option-cases (sv.runtime.int c.subject)) [
      | inl e' ↦ absurd (ground arith)
      | inr (negsuc n, e') ↦ absurd (ground arith)
      | inr (pos n, e') ↦ elim (Option-cases (sv.users.get n w.users)) [
        | inl f ↦ absurd (ground arith)
        | inr (user, f) ↦
            let same : user.id ≡ n = sv.users.get_key n user w.users f in
            (
              user,
              record {
                claims = c;
                decoded = e;
                unspent = ground arith;
                names = rw same e';
                stored = get_self sv n user w.users f;
                active = ground arith;
                different = ground arith;
              },
              ground arith,
            )
      ]
    ]
  ]

  -- A reset that succeeds was for an account that may be reset. It keeps a consistent table
  -- consistent and changes the password of that account alone, to one that the new password fits.
  pub reset_password_effect :
      (i : ℕ) {message : String} {w' : World sv}
      → IsConsistent sv w.users
      → reset_password sv now token new_password w ≡ (ok message, w')
      → (user : User) × MayReset user
        × IsConsistent sv w'.users
        × (sv.users.get i w'.users
            ≡ (if i == user.id then some (with_password user) else sv.users.get i w.users))
        × (passes sv.passwords.verify new_password (with_password user).hashed_password ≡ true)
  reset_password_effect i {w'} c h =
      let (user, may, same) = reset_password_inversion h in
      rw same (
        user,
        may,
        update-IsConsistent sv user (with_password user) w.users c may.stored refl refl,
        sv.users.get-save i (with_password user) w.users,
        sv.passwords.verify-hash w.draws new_password,
      )

  -- A reset that is refused changes nothing.
  pub reset_password_refused :
      {e : HttpException} {w' : World sv}
      → reset_password sv now token new_password w ≡ (err e, w')
      → w' ≡ w
  unfolding reset_password
  reset_password_refused h = elim (Option-cases (decode_password_reset_token sv now token)) [
    | inl f ↦ ground arith
    | inr (c, f) ↦ elim (Option-cases (sv.runtime.int c.subject)) [
      | inl f' ↦ ground arith
      | inr (negsuc n, f') ↦ ground arith
      | inr (pos n, f') ↦ ground arith
    ]
  ]

module _ (sv : Services) (now : ℕ) (p : Payload) (new_password : String) (w : World sv)
    {message : String} {w' : World sv} (kind : p.type ≡ "password_reset")
    (done : reset_password sv now (sv.jwt.encode p) new_password w ≡ (ok message, w')) where
  pub spent_by_reset :
      (t : ℕ) → now ≤ t → t < revoked_until now p → is_token_used sv.redis t p.jti w'.redis ≡ true
  unfolding remaining_ttl_seconds decode_password_reset_token
  spent_by_reset t later h =
      let (user, may, same) =
        reset_password_inversion sv now (sv.jwt.encode p) new_password w done in
      let claims : may.claims ≡ claims_in p = ground (
        arith,
        may.decoded,
        decode_token-encode sv now "password_reset" p,
        eq_iff p.type "password_reset",
      ) in
      rw (same, claims)
        (ground (
          arith,
          mark_token_used_effect sv.redis now t p.jti p.jti w.redis (ttl_at now p),
          eq_refl p.jti,
        ))

  -- A token that has reset a password is refused for every further reset, until the last whole
  -- second before its expiry, in every state that still holds its entry in Redis.
  pub reset_password_once :
      (t : ℕ) (other_password : String) (v : World sv)
      → now ≤ t
      → t < revoked_until now p
      → sv.redis.peek (used_key p.jti) v.redis ≡ sv.redis.peek (used_key p.jti) w'.redis
      → reset_password sv t (sv.jwt.encode p) other_password v
        ≡ (err (http 401 "Invalid or expired password reset token"), v)
  unfolding reset_password
  reset_password_once t other_password v later h kept = ground (
    arith,
    decode_token-encode sv t "password_reset" p,
    eq_iff p.type "password_reset",
    is_token_used_local sv.redis t p.jti v.redis w'.redis kept,
    spent_by_reset t later h,
  )
