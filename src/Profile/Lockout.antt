-- ===== src/Profile/Lockout.antt =====
-- What a change of password and a deactivation guarantee.
use fastapi_auth_api.Base.{
  ℕ, suc, ◌≡◌, refl, sym, subst, String, true, false, some, arith, ◌==◌, if◌then◌else◌,
}
use fastapi_auth_api.Http.{Result, ok, err, HttpException}
use fastapi_auth_api.Models.{User}
use fastapi_auth_api.Services.{Services, World}
use fastapi_auth_api.Tokens.{TokenClaims, decode_access_token}
use fastapi_auth_api.Accounts.{IsConsistent, update-IsConsistent, user_by_email_of_get}
use fastapi_auth_api.Dependencies.{user_by_email, get_current_user}
use fastapi_auth_api.Auth.Session.{passes, login_user}
use fastapi_auth_api.Profile.{change_user_password, deactivate_user}

-- The call ended in an exception.
abbrev pub IsRefused : {A : Type 0} → Result A → Type 0
IsRefused (ok a) = ⊥
IsRefused (err e) = Unit

module _ (sv : Services) (user : User) (w : World sv) where
  module _ (current_password new_password : String) where
    abbrev pub changed : User
    changed = record user { hashed_password = some (sv.passwords.hash w.draws new_password) }

    -- A change of password succeeds only for an account that has a password, when the current one
    -- is given and the new one does not fit already. It then keeps a consistent table consistent,
    -- and the account alone changes: the new password fits it.
    pub change_user_password_effect :
        (i : ℕ) {w' : World sv}
        → IsConsistent sv w.users
        → sv.users.get user.id w.users ≡ some user
        → change_user_password sv user current_password new_password w ≡ (ok tt, w')
        → IsConsistent sv w'.users
          × (passes sv.passwords.verify current_password user.hashed_password ≡ true)
          × (passes sv.passwords.verify new_password user.hashed_password ≡ false)
          × (passes sv.passwords.verify new_password changed.hashed_password ≡ true)
          × (sv.users.get i w'.users
              ≡ (if i == user.id then some changed else sv.users.get i w.users))
    unfolding change_user_password
    change_user_password_effect i {w'} c stored h =
        let state : w' ≡ record w { users = sv.users.save changed w.users; draws = suc w.draws } =
          ground arith in
        (
          rw state (update-IsConsistent sv user changed w.users c stored refl refl),
          ground arith,
          ground arith,
          sv.passwords.verify-hash w.draws new_password,
          rw state (sv.users.get-save i changed w.users),
        )

    -- A change of password that is refused answers 400 and changes nothing.
    pub change_user_password_refused :
        {e : HttpException} {w' : World sv}
        → change_user_password sv user current_password new_password w ≡ (err e, w')
        → (w' ≡ w) × (e.status_code ≡ 400)
    unfolding change_user_password
    change_user_password_refused h = (ground arith, ground arith)

  abbrev pub inactive : User
  inactive = record user { is_active = false }

  abbrev pub after_deactivation : World sv
  after_deactivation = record w { users = sv.users.save inactive w.users }

  -- Once an account of a consistent table is deactivated, every token whose subject is its address
  -- is refused at all times, and so is every login with its address, whatever the password.
  pub deactivate_user_locks_out :
      (now t : ℕ) (token : sv.jwt.Token) (claims : TokenClaims) (given password : String)
      → IsConsistent sv w.users
      → sv.users.get user.id w.users ≡ some user
      → decode_access_token sv t token ≡ some claims
      → claims.subject ≡ user.email
      → sv.runtime.lower given ≡ user.email
      → (deactivate_user sv user w ≡ (ok tt, after_deactivation))
        × IsRefused (get_current_user sv t token after_deactivation).0
        × IsRefused (login_user sv now given password after_deactivation).0
        × IsConsistent sv after_deactivation.users
  unfolding deactivate_user get_current_user login_user
  deactivate_user_locks_out now t token claims given password c stored decoded subject address =
      let consistent : IsConsistent sv after_deactivation.users =
        update-IsConsistent sv user inactive w.users c stored refl refl in
      let row : sv.users.get user.id after_deactivation.users ≡ some inactive =
        ground (arith, sv.users.get-save user.id inactive w.users) in
      let found = user_by_email_of_get sv user.id inactive after_deactivation consistent row in
      let by_claims : user_by_email sv claims.subject after_deactivation ≡ some inactive =
        subst (λ e. user_by_email sv e after_deactivation ≡ some inactive) (sym subject) found in
      let by_given : user_by_email sv (sv.runtime.lower given) after_deactivation ≡ some inactive =
        subst (λ e. user_by_email sv e after_deactivation ≡ some inactive) (sym address) found in
      (refl, ground (arith, by_claims), ground (arith, by_given), consistent)
