-- ===== src/Auth/Register.antt =====
-- app/api/auth.py: `register_user`, with the rate limiter of its route.
use fastapi_auth_api.Base.{
  ℕ, String, Bool, true, false, Option, none, some, List, [], ◌∷◌, str_eq, is_some,
}
use fastapi_auth_api.Http.{Action, http, pure, gets, modify, raise_if, ◌>>=◌, ◌>>◌}
use fastapi_auth_api.Models.{User, Role}
use fastapi_auth_api.Services.{Services, World, send_verification_email}
use fastapi_auth_api.Tokens.{create_email_verification_token}
use fastapi_auth_api.RateLimit.{RateLimiter, check_limit}
use fastapi_auth_api.Dependencies.{user_by_email, hash_password, save_user, queue}

pub record RegistrationResponse : Type 0 where
  pub id : ℕ
  pub email : String
  pub is_active : Bool
  pub is_verified : Bool
  pub message : String

abbrev pub register_limit : RateLimiter
register_limit = record { times = 5; seconds = 60; scope = "register" }

abbrev pub default_user_role_name : String
default_user_role_name = "user"

abbrev pub role_ids : Option Role → List ℕ
role_ids none = []
role_ids (some role) = role.id ∷ []

module _ (sv : Services) (now : ℕ) where
  abbrev pub new_user : String → String → Option Role → World sv → User
  new_user email hashed role w = record {
    id = sv.users.next_id w.users;
    email = email;
    hashed_password = some hashed;
    is_active = true;
    is_verified = false;
    created_at = now;
    roles = role_ids role;
  }

  unfoldable pub register_user : String → String → Action (World sv) RegistrationResponse
  unfolding create_email_verification_token
  register_user given password = do
    let email = sv.runtime.lower given
    existing_user ← gets (user_by_email sv email)
    raise_if (is_some existing_user) (http 409 "A user with this email already exists")
    hashed ← hash_password sv password
    default_role ← gets (λ w. sv.roles.scalar (λ r. str_eq r.name default_user_role_name) w.roles)
    user ← gets (new_user email hashed default_role)
    modify (save_user sv user)
    token ← create_email_verification_token sv now (sv.runtime.str user.id)
    modify (queue sv (send_verification_email user.email token))
    pure (record {
      id = user.id;
      email = user.email;
      is_active = user.is_active;
      is_verified = user.is_verified;
      message = "Registration successful. Check your email to verify your account.";
    })

  -- POST /auth/register, from a client with this address.
  unfoldable pub register_route :
      Option String → String → String → Action (World sv) RegistrationResponse
  unfolding register_user check_limit
  register_route client given password = do
    check_limit sv now register_limit client
    register_user given password
