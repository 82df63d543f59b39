-- ===== src/Api/Tables/Profile.antt =====
-- The handlers of app/api/users.py keep the users table consistent.
use fastapi_auth_api.Base.{ℕ, refl, sym, subst, String, false, Option, none, some}
use fastapi_auth_api.Http.Rules.{Keeps, after_both}
use fastapi_auth_api.Models.{User}
use fastapi_auth_api.Services.{Services}
use fastapi_auth_api.Accounts.{update-IsConsistent}
use fastapi_auth_api.Profile.{
  update_user_email, change_user_password, deactivate_user, update_given, update_current_user,
  change_current_user_password, deactivate_current_user,
}
use fastapi_auth_api.Profile.Address.{update_user_email_effect, update_user_email_refused}
use fastapi_auth_api.Profile.Lockout.{change_user_password_effect, change_user_password_refused}
use fastapi_auth_api.Api.Callers.{by_me}
use fastapi_auth_api.Api.Tables.Sessions.{IsFine}

module _ (sv : Services) (now : ℕ) where
  email-Keeps :
      (user : User) (email : Option String) → Keeps (IsFine sv now) (update_given sv user email)
  unfolding update_given
  email-Keeps user none w c = c
  email-Keeps user (some email) w c =
      after_both (IsFine sv now) (update_user_email sv user email w)
        (λ a h. (update_user_email_effect sv user email w 0 c h).0)
        (λ e h. subst (IsFine sv now) (sym (update_user_email_refused sv user email w h).0) c)

  pub update_me-Keeps :
      (token : sv.jwt.Token) (email : Option String)
      → Keeps (IsFine sv now) (update_current_user sv now token email)
  unfolding update_current_user
  update_me-Keeps token email w c =
      by_me sv now token w (IsFine sv now) (λ user. update_given sv user email)
        (λ user stored. email-Keeps user email w c) c

  pub change_password-Keeps :
      (token : sv.jwt.Token) (old new : String)
      → Keeps (IsFine sv now) (change_current_user_password sv now token old new)
  unfolding change_current_user_password
  change_password-Keeps token old new w c =
      by_me sv now token w (IsFine sv now) (λ user. change_user_password sv user old new)
        (λ user stored.
          after_both (IsFine sv now) (change_user_password sv user old new w)
            (λ a h. (change_user_password_effect sv user w old new 0 c stored h).0)
            (λ e h.
              subst (IsFine sv now) (sym (change_user_password_refused sv user w old new h).0) c))
        c

  pub delete_me-Keeps :
      (token : sv.jwt.Token) → Keeps (IsFine sv now) (deactivate_current_user sv now token)
  unfolding deactivate_current_user deactivate_user
  delete_me-Keeps token w c =
      by_me sv now token w (IsFine sv now) (deactivate_user sv)
        (λ user stored.
          update-IsConsistent sv user (record user { is_active = false }) w.users c stored refl
            refl)
        c
