-- ===== src/Auth/Verification.antt =====
-- E-mail verification, and the way from a registration to the first login.
use fastapi_auth_api.Base.{
  ℕ, ◌+◌, ◌*◌, ◌/◌, ◌≤◌, ◌≡◌, refl, String, true, false, inl, inr, ◌⊎◌, some, arith, Option-cases,
  Bool-cases, ◌==◌, if◌then◌else◌, pos, negsuc,
}
use fastapi_auth_api.Http.{ok, err, HttpException}
use fastapi_auth_api.Models.{User}
use fastapi_auth_api.Services.{Services, World}
use fastapi_auth_api.Services.Redis.{second}
use fastapi_auth_api.Tokens.{
  TokenClaims, minutes, payload, decode_email_verification_token, remaining_ttl_seconds,
}
use fastapi_auth_api.Tokens.Kinds.{decode_token-encode}
use fastapi_auth_api.Blacklist.{is_token_used, mark_token_used}
use fastapi_auth_api.Accounts.{IsConsistent, update-IsConsistent, get_self}
use fastapi_auth_api.Auth.Recovery.{verify_email}

abbrev pub verified : User → User
verified user = record user { is_verified = true }

module _ (sv : Services) (now : ℕ) (token : sv.jwt.Token) (w : World sv) where
  -- The account that the token is for.
  pub record IsFor (user : User) : Type 0 where
    pub claims : TokenClaims
    pub decoded : decode_email_verification_token sv now token ≡ some claims
    pub names : sv.runtime.int claims.subject ≡ some (pos user.id)
    pub stored : sv.users.get user.id w.users ≡ some user

  verify_email_inversion :
      {message : String} {w' : World sv}
      → verify_email sv now token w ≡ (ok message, w')
      → (user : User) × IsFor user
        × (((user.is_verified ≡ true) × (w' ≡ w))
            ⊎ ((user.is_verified ≡ false) × (w'.users ≡ sv.users.save (verified user) w.users)))
  unfolding verify_email
  verify_email_inversion h = elim (Option-cases (decode_email_verification_token sv now token)) [
    | inl e ↦ absurd (ground arith)
    | inr (c, e) ↦ elim (Option-cases (sv.runtime.int c.subject)) [
      | inl e' ↦ absurd (ground arith)
      | inr (negsuc n, e') ↦ absurd (ground arith)
      | inr (pos n, e') ↦ elim (Option-cases (sv.users.get n w.users)) [
        | inl f ↦ absurd (ground arith)
        | inr (user, f) ↦
            let same : user.id ≡ n = sv.users.get_key n user w.users f in
            (
              user,
              record {
                claims = c;
                decoded = e;
                names = rw same e';
                stored = get_self sv n user w.users f;
              },
              elim (Bool-cases user.is_verified) [
                | inl v ↦ inl (v, ground arith)
                | inr v ↦ inr (v, ground arith)
              ],
            )
      ]
    ]
  ]

  -- When a verification succeeds, the account that the token names is verified afterwards, and
  -- was already or is changed in nothing else; no other account changes, and a consistent table
  -- stays consistent.
  pub verify_email_effect :
      (i : ℕ) {message : String} {w' : World sv}
      → IsConsistent sv w.users
      → verify_email sv now token w ≡ (ok message, w')
      → (user : User) × IsFor user
        × IsConsistent sv w'.users
        × (sv.users.get i w'.users
            ≡ (if i == user.id then some (verified user) else sv.users.get i w.users))
  verify_email_effect i {w'} c h =
      let (user, for, how) = verify_email_inversion h in
      elim how [
        | inl (already, same) ↦ (user, for, rw same c, ground arith)
        | inr (first, same) ↦ (
          user,
          for,
          rw same (update-IsConsistent sv user (verified user) w.users c for.stored refl refl),
          rw same (sv.users.get-save i (verified user) w.users),
        )
      ]

  -- A verification that is refused changes nothing.
  pub verify_email_refused :
      {e : HttpException} {w' : World sv} → verify_email sv now token w ≡ (err e, w') → w' ≡ w
  unfolding verify_email
  verify_email_refused h = elim (Option-cases (decode_email_verification_token sv now token)) [
    | inl f ↦ ground arith
    | inr (c, f) ↦ elim (Option-cases (sv.runtime.int c.subject)) [
      | inl f' ↦ ground arith
      | inr (negsuc n, f') ↦ ground arith
      | inr (pos n, f') ↦ ground arith
    ]
  ]

  -- Verifying a second time succeeds, says so and changes nothing: in any state that still holds
  -- the account as verified, at any time when the token still decodes to the same claims.
  pub verify_email_again :
      (t : ℕ) (user : User) (for : IsFor user) (v : World sv)
      → decode_email_verification_token sv t token ≡ some for.claims
      → sv.users.get user.id v.users ≡ some user
      → user.is_verified ≡ true
      → verify_email sv t token v ≡ (ok "Email is already verified", v)
  unfolding verify_email
  verify_email_again t user for v decoded stored done = ground (arith, for.names)

module _ (sv : Services) (made t : ℕ) (user : User) (w v : World sv) where
  abbrev pub registration_token : sv.jwt.Token
  registration_token =
      sv.jwt.encode (payload sv made (sv.runtime.str user.id) "email_verification" (minutes 30) w)

  -- The token that a registration mails to an account, whose id it names, verifies that account,
  -- while the token is current and unspent and the account is stored and not verified yet.
  pub verify_email_mailed :
      t / second ≤ (made + minutes 30) / second
      → sv.users.get user.id v.users ≡ some user
      → user.is_verified ≡ false
      → is_token_used sv.redis t (sv.runtime.uuid4 w.draws) v.redis ≡ false
      → (w' : World sv) × (verify_email sv t registration_token v
          ≡ (ok "Email verified successfully", w'))
        × (sv.users.get user.id w'.users ≡ some (verified user))
  unfolding verify_email
  verify_email_mailed current stored unverified unspent = (
    record v {
      users = sv.users.save (verified user) v.users;
      redis =
          mark_token_used sv.redis t (sv.runtime.uuid4 w.draws)
            (remaining_ttl_seconds t ((made + minutes 30) / second * second)) v.redis;
    },
    ground (
      arith,
      decode_token-encode sv t "email_verification"
          (payload sv made (sv.runtime.str user.id) "email_verification" (minutes 30) w),
      sv.runtime.int-str user.id,
    ),
    ground (arith, sv.users.get-save user.id (verified user) v.users),
  )
