-- ===== src/Profile.antt =====
-- app/services/user_profile.py, and the routes of app/api/users.py that call it.
pub mod Address
pub mod Lockout
use fastapi_auth_api.Base.{
  ℕ, String, Bool, true, false, not, ◌&&◌, Option, none, some, is_none, is_some, str_eq, ◌==◌,
}
use fastapi_auth_api.Http.{Action, http, pure, gets, modify, raise_if, ◌>>=◌, ◌>>◌}
use fastapi_auth_api.Models.{User}
use fastapi_auth_api.Services.{Services, World}
use fastapi_auth_api.Dependencies.{hash_password, save_user, get_current_user}
use fastapi_auth_api.Auth.Session.{passes}

-- `User.email == normalized_email, User.id != user.id`
abbrev pub is_other : String → User → User → Bool
is_other email user u = str_eq u.email email && not (u.id == user.id)

module _ (sv : Services) where
  unfoldable pub update_user_email : User → String → Action (World sv) User
  update_user_email user new_email = do
    let email = sv.runtime.lower new_email
    existing_user ← gets (λ w. sv.users.scalar (is_other email user) w.users)
    raise_if (is_some existing_user) (http 409 "A user with this email already exists")
    modify (save_user sv (record user { email = email }))
    pure (record user { email = email })

  unfoldable pub change_user_password : User → String → String → Action (World sv) (Unit {0})
  change_user_password user current_password new_password = do
    raise_if (is_none user.hashed_password)
        (http 400 "This account has no password set. Use the password reset flow to set one.")
    raise_if (not (passes sv.passwords.verify current_password user.hashed_password))
        (http 400 "Current password is incorrect")
    raise_if (passes sv.passwords.verify new_password user.hashed_password)
        (http 400 "New password must be different")
    hashed ← hash_password sv new_password
    modify (save_user sv (record user { hashed_password = some hashed }))

  unfoldable pub deactivate_user : User → Action (World sv) (Unit {0})
  deactivate_user user = modify (save_user sv (record user { is_active = false }))

  -- `if user_data.email is not None`
  unfoldable pub update_given : User → Option String → Action (World sv) User
  unfolding update_user_email
  update_given user none = pure user
  update_given user (some new_email) = update_user_email user new_email

  module _ (now : ℕ) (token : sv.jwt.Token) where
    -- GET /users/me
    unfoldable pub read_current_user : Action (World sv) User
    unfolding get_current_user
    read_current_user = get_current_user sv now token

    -- PATCH /users/me
    unfoldable pub update_current_user : Option String → Action (World sv) User
    unfolding get_current_user update_given
    update_current_user email = do
      current_user ← get_current_user sv now token
      update_given current_user email

    -- POST /users/me/change-password
    unfoldable pub change_current_user_password : String → String → Action (World sv) (Unit {0})
    unfolding get_current_user change_user_password
    change_current_user_password current_password new_password = do
      current_user ← get_current_user sv now token
      change_user_password current_user current_password new_password

    -- DELETE /users/me
    unfoldable pub deactivate_current_user : Action (World sv) (Unit {0})
    unfolding get_current_user deactivate_user
    deactivate_current_user = do
      current_user ← get_current_user sv now token
      deactivate_user current_user
