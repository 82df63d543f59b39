-- ===== src/Profile/Address.antt =====
-- What a change of address does to the table and to the tokens that name the old address.
use fastapi_auth_api.Base.{
  ℕ, ◌≡◌, ◌≢◌, sym, ◌∙◌, subst, String, false, none, some, arith, Option-cases, inl, inr, ◌==◌,
  if◌then◌else◌, eq_iff, ==_iff,
}
use fastapi_auth_api.Http.{ok, err, HttpException}
use fastapi_auth_api.Models.{User}
use fastapi_auth_api.Services.{Services, World}
use fastapi_auth_api.Services.Jwt.{Payload}
use fastapi_auth_api.Tokens.Kinds.{IsCurrent, decode_token-encode}
use fastapi_auth_api.Blacklist.{is_token_blacklisted}
use fastapi_auth_api.Accounts.{IsConsistent, IsFree, save-IsConsistent, user_by_email_of_get}
use fastapi_auth_api.Dependencies.{user_by_email, get_current_user}
use fastapi_auth_api.Auth.Register.{RegistrationResponse, register_user}
use fastapi_auth_api.Auth.Registration.{register_user_effect}
use fastapi_auth_api.Profile.{is_other, update_user_email}

module _ (sv : Services) (user : User) (new_email : String) (w : World sv) where
  abbrev pub moved : User
  moved = record user { email = sv.runtime.lower new_email }

  update_user_email_inversion :
      {user' : User} {w' : World sv}
      → update_user_email sv user new_email w ≡ (ok user', w')
      → (sv.users.scalar (is_other (sv.runtime.lower new_email) user) w.users ≡ none)
        × (user' ≡ moved)
        × (w' ≡ record w { users = sv.users.save moved w.users })
  unfolding update_user_email
  update_user_email_inversion h =
      elim (Option-cases (sv.users.scalar (is_other (sv.runtime.lower new_email) user) w.users)) [
        | inl f ↦ (f, ground arith, ground arith)
        | inr (other, f) ↦ absurd (ground arith)
      ]

  IsFree-moved :
      sv.users.scalar (is_other (sv.runtime.lower new_email) user) w.users ≡ none
      → IsFree sv moved w.users
  IsFree-moved f i v g e =
      let none_other = sv.users.scalar_none (is_other moved.email user) i v w.users f g in
      ground (
        arith,
        none_other,
        eq_iff v.email moved.email,
        ==_iff v.id user.id,
        sv.users.get_key i v w.users g,
      )

  -- A change of address that succeeds keeps a consistent table consistent: the account is stored
  -- and found under the lower-cased new address, is otherwise as it was, and no other account
  -- changes.
  pub update_user_email_effect :
      (i : ℕ) {user' : User} {w' : World sv}
      → IsConsistent sv w.users
      → update_user_email sv user new_email w ≡ (ok user', w')
      → IsConsistent sv w'.users
        × (user' ≡ moved)
        × (user_by_email sv (sv.runtime.lower new_email) w' ≡ some moved)
        × (sv.users.get i w'.users ≡ (if i == user.id then some moved else sv.users.get i w.users))
  update_user_email_effect i {w'} c h =
      let (f, same, state) = update_user_email_inversion h in
      let after : World sv = record w { users = sv.users.save moved w.users } in
      let consistent : IsConsistent sv after.users =
        save-IsConsistent sv moved w.users c (IsFree-moved f) (sv.runtime.lower_idem new_email) in
      let stored : sv.users.get user.id after.users ≡ some moved =
        ground (arith, sv.users.get-save user.id moved w.users) in
      rw state (
        consistent,
        same,
        user_by_email_of_get sv user.id moved after consistent stored,
        sv.users.get-save i moved w.users,
      )

  -- A change of address is refused only because another account has it, with 409, and changes
  -- nothing then.
  pub update_user_email_refused :
      {e : HttpException} {w' : World sv}
      → update_user_email sv user new_email w ≡ (err e, w')
      → (w' ≡ w)
        × (e.status_code ≡ 409)
        × ((other : User) × (sv.users.get other.id w.users ≡ some other)
            × (other.email ≡ sv.runtime.lower new_email)
            × (other.id ≢ user.id))
  unfolding update_user_email
  update_user_email_refused h =
      elim (Option-cases (sv.users.scalar (is_other (sv.runtime.lower new_email) user) w.users)) [
        | inl f ↦ absurd (ground arith)
        | inr (other, f) ↦
            let (fits, stored) =
              sv.users.scalar_sound (is_other (sv.runtime.lower new_email) user) other w.users f in
            (
              ground arith,
              ground arith,
              (
                other,
                stored,
                ground (arith, fits, eq_iff other.email (sv.runtime.lower new_email)),
                λ e. ground (arith, fits, ==_iff other.id user.id),
              ),
            )
      ]

-- A token names its account by the address, not by the id. So once an account has moved to another
-- address and somebody else has registered the old one, an access token of the first account
-- that is current and not revoked lets its bearer through as the second account.
pub stale_token_takes_over :
    (sv : Services) (now t : ℕ) (p : Payload) (user : User) (new_email password : String)
    (w : World sv) {user' : User} {w1 w2 : World sv} {response : RegistrationResponse}
    → IsConsistent sv w.users
    → sv.users.get user.id w.users ≡ some user
    → update_user_email sv user new_email w ≡ (ok user', w1)
    → register_user sv now user.email password w1 ≡ (ok response, w2)
    → p.type ≡ "access"
    → p.sub ≡ user.email
    → IsCurrent t p
    → is_token_blacklisted sv.redis t p.jti w2.redis ≡ false
    → (other : User) × (get_current_user sv t (sv.jwt.encode p) w2 ≡ (ok other, w2))
      × (other.id ≡ response.id)
      × (response.id ≢ user.id)
unfolding get_current_user
stale_token_takes_over sv now t p user new_email password w {w1} {w2} {response} c stored changed
      registered kind subject current fresh =
    let (c1, same, found1, row1) = update_user_email_effect sv user new_email w user.id c changed in
    let r = register_user_effect sv now user.email password w1 t user.id c1 registered in
    let low : sv.runtime.lower user.email ≡ user.email = c.lowered user.id user stored in
    let found : user_by_email sv p.sub w2 ≡ some r.0 =
      subst (λ e. user_by_email sv e w2 ≡ some r.0) (low ∙ sym subject) r.3 in
    (
      r.0,
      ground (arith, decode_token-encode sv t "access" p, eq_iff p.type "access", found, r.8),
      r.4,
      λ e. ground (arith, row1, r.5, e),
    )
