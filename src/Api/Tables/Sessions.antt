-- ===== src/Api/Tables/Sessions.antt =====
-- The handlers of app/api/auth.py keep the users table consistent.
use fastapi_auth_api.Base.{ℕ, ◌≡◌, refl, sym, subst, String, Option, none, some, arith}
use fastapi_auth_api.Http.{Action, ◌>>◌}
use fastapi_auth_api.Http.Rules.{Keeps, Keeps-bind, after_both}
use fastapi_auth_api.Services.{Services, World}
use fastapi_auth_api.Tokens.{TokenClaims, decode_refresh_token, remaining_ttl_seconds}
use fastapi_auth_api.Blacklist.{blacklist_token}
use fastapi_auth_api.RateLimit.{RateLimiter, check_limit}
use fastapi_auth_api.Accounts.{IsConsistent}
use fastapi_auth_api.Auth.Register.{register_user}
use fastapi_auth_api.Auth.Registration.{register_user_effect, register_user_refused}
use fastapi_auth_api.Auth.Session.{revoke, revoke_refresh, login_user, refresh_access_token, logout}
use fastapi_auth_api.Auth.Recovery.{verify_email, forgot_password, reset_password}
use fastapi_auth_api.Auth.Reset.{reset_password_effect, reset_password_refused}
use fastapi_auth_api.Auth.Verification.{verify_email_refused, verify_email_effect}

module _ (sv : Services) (now : ℕ) where
  users-revoke_refresh :
      (refresh_token : Option sv.jwt.Token) (w : World sv)
      → (revoke_refresh sv now refresh_token w).users ≡ w.users
  unfolding decode_refresh_token blacklist_token remaining_ttl_seconds
  users-revoke_refresh none w = refl
  users-revoke_refresh (some token) w = ground arith

  users-logout :
      (refresh_token : Option sv.jwt.Token) (token : sv.jwt.Token) (w : World sv)
      → (logout sv now refresh_token token w).1.users ≡ w.users
  unfolding logout
  users-logout none token w = ground arith
  users-logout (some r) token w =
      ground (arith, λ (c : TokenClaims). users-revoke_refresh (some r) (revoke sv now c w))

  abbrev pub IsFine : World sv → Type 0
  IsFine w = IsConsistent sv w.users

  -- Behind a rate limiter, which changes Redis alone.
  pub limited :
      {A : Type 0} (rl : RateLimiter) (client : Option String) (m : Action (World sv) A)
      → Keeps IsFine m
      → Keeps IsFine (check_limit sv now rl client >> m)
  unfolding check_limit
  limited rl client m keeps =
      Keeps-bind IsFine (check_limit sv now rl client) (λ _. m) (λ w c. c) (λ _. keeps)

  pub register-Keeps :
      (given password : String) → Keeps IsFine (register_user sv now given password)
  register-Keeps given password w c =
      after_both IsFine (register_user sv now given password w)
        (λ a h. (register_user_effect sv now given password w now 0 c h).2)
        (λ e h. subst IsFine (sym (register_user_refused sv now given password w h).0) c)

  pub login-Keeps : (given password : String) → Keeps IsFine (login_user sv now given password)
  unfolding login_user
  login-Keeps given password w c =
      let same : (login_user sv now given password w).1.users ≡ w.users = ground arith in rw same c

  pub refresh-Keeps : (token : sv.jwt.Token) → Keeps IsFine (refresh_access_token sv now token)
  unfolding refresh_access_token
  refresh-Keeps token w c =
      let same : (refresh_access_token sv now token w).1.users ≡ w.users = ground arith in rw same c

  pub logout-Keeps :
      (refresh_token : Option sv.jwt.Token) (token : sv.jwt.Token)
      → Keeps IsFine (logout sv now refresh_token token)
  logout-Keeps refresh_token token w c =
      subst (IsConsistent sv) (sym (users-logout refresh_token token w)) c

  pub verify-Keeps : (token : sv.jwt.Token) → Keeps IsFine (verify_email sv now token)
  verify-Keeps token w c =
      after_both IsFine (verify_email sv now token w)
        (λ a h. (verify_email_effect sv now token w 0 c h).2)
        (λ e h. subst IsFine (sym (verify_email_refused sv now token w h)) c)

  pub forgot-Keeps : (given : String) → Keeps IsFine (forgot_password sv now given)
  unfolding forgot_password
  forgot-Keeps given w c =
      let same : (forgot_password sv now given w).1.users ≡ w.users = ground arith in rw same c

  pub reset-Keeps :
      (token : sv.jwt.Token) (password : String)
      → Keeps IsFine (reset_password sv now token password)
  reset-Keeps token password w c =
      after_both IsFine (reset_password sv now token password w)
        (λ a h. (reset_password_effect sv now token password w 0 c h).2)
        (λ e h. subst IsFine (sym (reset_password_refused sv now token password w h)) c)
