-- ===== src/Dependencies.antt =====
-- app/auth/dependencies.py: who sends the request. Also the queries and hashing that the handlers
-- share.
pub mod Access
use fastapi_auth_api.Base.{ℕ, suc, String, Bool, not, Option, [], ◌∷◌, ◌++◌, str_eq}
use fastapi_auth_api.Http.{
  Action, HttpException, http, pure, gets, or_raise, raise_if, ok, ◌>>=◌, ◌>>◌,
}
use fastapi_auth_api.Models.{User}
use fastapi_auth_api.Services.{Services, World, Task}
use fastapi_auth_api.Tokens.{decode_access_token}
use fastapi_auth_api.Blacklist.{is_token_blacklisted}

-- `headers={"WWW-Authenticate": "Bearer"}`
abbrev pub bearer : String → HttpException
bearer detail = record {
  status_code = 401;
  detail = detail;
  headers = ("WWW-Authenticate", "Bearer") ∷ [];
}

-- `WebSocketException(code=status.WS_1008_POLICY_VIOLATION)`
abbrev pub policy_violation : HttpException
policy_violation = http 1008 ""

abbrev pub has_email : String → User → Bool
has_email email user = str_eq user.email email

module _ (sv : Services) where
  abbrev pub user_by_email : String → World sv → Option User
  user_by_email email w = sv.users.scalar (has_email email) w.users

  -- `password_hash.hash(password)` of app/auth/password.py; the salt is a draw.
  abbrev pub hash_password : String → Action (World sv) String
  hash_password password w =
      (ok (sv.passwords.hash w.draws password), record w { draws = suc w.draws })

  abbrev pub verify_password : String → String → Bool
  verify_password = sv.passwords.verify

  abbrev pub save_user : User → World sv → World sv
  save_user user w = record w { users = sv.users.save user w.users }

  -- `task.delay(...)`
  abbrev pub queue : Task sv.jwt.Token → World sv → World sv
  queue task w = record w { tasks = w.tasks ++ task ∷ [] }

module _ (sv : Services) (now : ℕ) where
  abbrev pub is_revoked : String → World sv → Bool
  unfolding is_token_blacklisted
  is_revoked jti w = is_token_blacklisted sv.redis now jti w.redis

  unfoldable pub get_current_user : sv.jwt.Token → Action (World sv) User
  unfolding decode_access_token is_token_blacklisted
  get_current_user token = do
    claims ← or_raise (decode_access_token sv now token) (bearer "Invalid or expired access token")
    revoked ← gets (is_revoked claims.jti)
    raise_if revoked (bearer "Token has been revoked")
    found ← gets (user_by_email sv claims.subject)
    user ← or_raise found (http 401 "User not found")
    raise_if (not user.is_active) (http 403 "User account is inactive")
    pure user

  unfoldable pub get_current_user_ws : sv.jwt.Token → Action (World sv) User
  unfolding decode_access_token is_token_blacklisted
  get_current_user_ws token = do
    claims ← or_raise (decode_access_token sv now token) policy_violation
    revoked ← gets (is_revoked claims.jti)
    raise_if revoked policy_violation
    found ← gets (user_by_email sv claims.subject)
    user ← or_raise found policy_violation
    raise_if (not user.is_active) policy_violation
    pure user
