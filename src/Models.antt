-- ===== src/Models.antt =====
-- The rows of the database, app/models/. Times are microseconds since the epoch.
use fastapi_auth_api.Base.{ℕ, String, Bool, Option, List}

-- `Permission` of role.py.
pub record Permission : Type 0 where
  pub id : ℕ
  pub name : String
  pub description : Option String

-- `Role` of role.py, with its rows of `role_permissions`.
pub record Role : Type 0 where
  pub id : ℕ
  pub name : String
  pub description : Option String
  pub permissions : List Permission

-- `User` of user.py; `roles` are the role ids of its rows of `user_roles`.
pub record User : Type 0 where
  pub id : ℕ
  pub email : String
  pub hashed_password : Option String
  pub is_active : Bool
  pub is_verified : Bool
  pub created_at : ℕ
  pub roles : List ℕ

-- `OAuthAccount` of oauth_account.py.
pub record OauthAccount : Type 0 where
  pub id : ℕ
  pub user_id : ℕ
  pub provider : String
  pub provider_user_id : String
  pub email : Option String
  pub created_at : ℕ

-- `FileUpload` of file_upload.py.
pub record FileUpload : Type 0 where
  pub id : ℕ
  pub user_id : ℕ
  pub filename : String
  pub content_type : String
  pub category : String
  pub size_bytes : ℕ
  pub storage_key : String
  pub created_at : ℕ
