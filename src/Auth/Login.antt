-- ===== src/Auth/Login.antt =====
-- Who can log in, and what the tokens of a login say.
use fastapi_auth_api.Base.{
  ℕ, suc, ◌≡◌, String, true, false, ◌⊎◌, inl, inr, some, arith, Option-cases, Bool-cases,
}
use fastapi_auth_api.Http.{ok, err, HttpException}
use fastapi_auth_api.Models.{User}
use fastapi_auth_api.Services.{Services, World}
use fastapi_auth_api.Tokens.{payload, minutes, days}
use fastapi_auth_api.Tokens.Kinds.{accepted, rejected, while_current, accepted-encode}
use fastapi_auth_api.Dependencies.{bearer, user_by_email}
use fastapi_auth_api.Auth.Session.{TokenResponse, passes, login_user}

module _ (sv : Services) (now : ℕ) (given password : String) (w : World sv) where
  -- The account that the login is for.
  pub record MayLogIn (user : User) : Type 0 where
    pub found : user_by_email sv (sv.runtime.lower given) w ≡ some user
    pub password_fits : passes sv.passwords.verify password user.hashed_password ≡ true
    pub verified : user.is_verified ≡ true
    pub active : user.is_active ≡ true

  -- A login succeeds only for an account that is found under the lower-cased address, with a
  -- password that fits, verified and active. It changes nothing but the number of draws, and its
  -- two tokens name the account's address: at every time `t` the first is accepted as an access
  -- token alone, the second as a refresh token alone, each through the second of its expiry.
  pub login_user_sound :
      (t : ℕ) {response : TokenResponse sv.jwt.Token} {w' : World sv}
      → login_user sv now given password w ≡ (ok response, w')
      → (user : User) × MayLogIn user
        × (accepted sv t response.access_token ≡ record rejected {
          access = while_current sv now t (minutes sv.access_token_expire_minutes) user.email w;
        })
        × (accepted sv t response.refresh_token ≡ record rejected {
          refresh =
              while_current sv now t
                (days sv.refresh_token_expire_days)
                user.email
                (record w { draws = suc w.draws });
        })
        × (w' ≡ record w { draws = suc (suc w.draws) })
  unfolding login_user
  login_user_sound t h = elim (Option-cases (user_by_email sv (sv.runtime.lower given) w)) [
    | inl e ↦ absurd (ground arith)
    | inr (user, e) ↦ (
      user,
      ground arith,
      ground (
        arith,
        accepted-encode sv now t user.email w "access" (minutes sv.access_token_expire_minutes),
      ),
      ground (
        arith,
        accepted-encode sv now t user.email (record w { draws = suc w.draws }) "refresh"
            (days sv.refresh_token_expire_days),
      ),
      ground arith,
    )
  ]

  abbrev pub issued : String → TokenResponse sv.jwt.Token
  issued email = record {
    access_token =
        sv.jwt.encode (payload sv now email "access" (minutes sv.access_token_expire_minutes) w);
    refresh_token = sv.jwt.encode (
        payload sv now email "refresh" (days sv.refresh_token_expire_days)
          (record w { draws = suc w.draws }));
    token_type = "bearer";
  }

  -- An account that is found, with a password that fits, verified and active does log in: it gets
  -- a signed access token and a signed refresh token for its address.
  pub login_user_complete :
      (user : User)
      → MayLogIn user
      → login_user sv now given password w
        ≡ (ok (issued user.email), record w { draws = suc (suc w.draws) })
  unfolding login_user
  login_user_complete user may = ground arith

  -- A refused login changes nothing. It is answered 401, in the same words, for an unknown
  -- address, for an account without a password and for a wrong password; 403 goes only to a
  -- caller who knows the password of an account that is not verified or not active.
  pub login_user_refused :
      {e : HttpException} {w' : World sv}
      → login_user sv now given password w ≡ (err e, w')
      → (w' ≡ w)
        × ((e ≡ bearer "Invalid email or password")
            ⊎ ((user : User) × (user_by_email sv (sv.runtime.lower given) w ≡ some user)
                × (passes sv.passwords.verify password user.hashed_password ≡ true)
                × (e.status_code ≡ 403)
                × ((user.is_verified ≡ false) ⊎ (user.is_active ≡ false))))
  unfolding login_user
  login_user_refused h = elim (Option-cases (user_by_email sv (sv.runtime.lower given) w)) [
    | inl f ↦ (ground arith, inl (ground arith))
    | inr (user, f) ↦ elim (Bool-cases (passes sv.passwords.verify password user.hashed_password)) [
      | inl fits ↦ (ground arith, inr (user, f, fits, ground arith, ground arith))
      | inr wrong ↦ (ground arith, inl (ground arith))
    ]
  ]
