-- ===== src/Services.antt =====
-- What the program takes from outside, and the state that its handlers share.
pub mod Redis
pub mod Table
pub mod Jwt
pub mod Runtime
use fastapi_auth_api.Base.{ℕ, String, List}
use fastapi_auth_api.Models.{User, Role, OauthAccount, FileUpload}
use fastapi_auth_api.Connections.{Connections, Frame}

-- The outside services, with the settings that the handlers read.
pub record Services : Type 1 where
  pub jwt : Jwt.Jwt
  pub passwords : Runtime.Passwords
  pub runtime : Runtime.Runtime
  pub redis : Redis.Redis
  pub users : Table.Table User (λ u. u.id)
  pub roles : Table.Table Role (λ r. r.id)
  pub links : Table.Table OauthAccount (λ a. a.id)
  pub files : Table.Table FileUpload (λ f. f.id)
  pub access_token_expire_minutes : ℕ
  pub refresh_token_expire_days : ℕ

-- A Celery task that was queued, with its arguments.
pub data Task (Token : Type 0) : Type 0 where
  send_verification_email : String → Token → Task Token
  send_password_reset_email : String → Token → Task Token

-- The state: the tables, Redis, the number of random draws so far, the queued tasks, and of the
-- WebSocket side the open sockets, the frames sent to them and those published for other workers,
-- with the id of their user as the name of the channel has it.
pub record World (sv : Services) : Type 0 where
  pub users : sv.users.State
  pub roles : sv.roles.State
  pub links : sv.links.State
  pub files : sv.files.State
  pub redis : sv.redis.State
  pub draws : ℕ
  pub tasks : List (Task sv.jwt.Token)
  pub connections : Connections
  pub sent : List (ℕ × Frame)
  pub published : List (String × Frame)
