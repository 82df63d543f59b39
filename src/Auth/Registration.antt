-- ===== src/Auth/Registration.antt =====
-- What a registration leaves behind.
use fastapi_auth_api.Base.{
  ℕ, suc, ◌≡◌, refl, String, true, false, inl, inr, none, some, [], ◌∷◌, ◌++◌, arith, Option-cases,
  ◌==◌, if◌then◌else◌, str_eq,
}
use fastapi_auth_api.Http.{ok, err, HttpException}
use fastapi_auth_api.Models.{User}
use fastapi_auth_api.Services.{Services, World, send_verification_email}
use fastapi_auth_api.Tokens.{minutes, payload}
use fastapi_auth_api.Tokens.Kinds.{accepted, rejected, while_current, accepted-encode}
use fastapi_auth_api.Accounts.{
  IsConsistent, save-IsConsistent, IsFree-of_none, user_by_email_of_get,
}
use fastapi_auth_api.Dependencies.{user_by_email}
use fastapi_auth_api.Auth.Session.{passes}
use fastapi_auth_api.Auth.Register.{
  RegistrationResponse, default_user_role_name, new_user, register_user,
}

module _ (sv : Services) (now : ℕ) (given password : String) (w : World sv) where
  abbrev email : String
  email = sv.runtime.lower given

  -- The row that a registration adds.
  abbrev pub registered : User
  registered =
      new_user sv now email (sv.passwords.hash w.draws password)
        (sv.roles.scalar (λ r. str_eq r.name default_user_role_name) w.roles)
        (record w { draws = suc w.draws })

  abbrev pub verification_token : sv.jwt.Token
  verification_token = sv.jwt.encode (
      payload sv now (sv.runtime.str registered.id) "email_verification" (minutes 30)
        (record w { draws = suc w.draws }))

  abbrev pub after_registration : World sv
  after_registration = record w {
    users = sv.users.save registered w.users;
    draws = suc (suc w.draws);
    tasks = w.tasks ++ send_verification_email email verification_token ∷ [];
  }

  register_user_lem :
      user_by_email sv email w ≡ none
      → register_user sv now given password w ≡ (
        ok (record {
          id = registered.id;
          email = email;
          is_active = true;
          is_verified = false;
          message = "Registration successful. Check your email to verify your account.";
        }),
        after_registration,
      )
  unfolding register_user
  register_user_lem h = ground arith

  registered_stored :
      (i : ℕ)
      → sv.users.get i after_registration.users
        ≡ (if i == registered.id then some registered else sv.users.get i w.users)
  registered_stored i = sv.users.get-save i registered w.users

  after_registration-IsConsistent :
      IsConsistent sv w.users
      → user_by_email sv email w ≡ none
      → IsConsistent sv after_registration.users
  after_registration-IsConsistent c h =
      save-IsConsistent sv registered w.users c (IsFree-of_none sv registered w.users h)
        (sv.runtime.lower_idem given)

  -- A registration fails only because the lower-cased address is taken; it answers 409 then and
  -- changes nothing.
  pub register_user_refused :
      {e : HttpException} {w' : World sv}
      → register_user sv now given password w ≡ (err e, w')
      → (w' ≡ w) × (e.status_code ≡ 409) × ((user : User) × (user_by_email sv email w ≡ some user))
  unfolding register_user
  register_user_refused h = elim (Option-cases (user_by_email sv email w)) [
    | inl f ↦ absurd (ground (arith, register_user_lem f))
    | inr (user, f) ↦ (ground arith, ground arith, (user, f))
  ]

  -- A registration that succeeds leaves a consistent table consistent. It adds one account, under
  -- an id that no account had, and changes no other account. The account has the lower-cased
  -- address, is active and not verified, and its password is the given one. The last queued task
  -- mails its address a token that names the id, which only the e-mail verification accepts.
  pub register_user_effect :
      (t i : ℕ) {response : RegistrationResponse} {w' : World sv}
      → IsConsistent sv w.users
      → register_user sv now given password w ≡ (ok response, w')
      → (user : User) × (token : sv.jwt.Token) × IsConsistent sv w'.users
        × (user_by_email sv email w' ≡ some user)
        × (user.id ≡ response.id)
        × (sv.users.get response.id w.users ≡ none)
        × (sv.users.get i w'.users
            ≡ (if i == response.id then some user else sv.users.get i w.users))
        × (user.is_verified ≡ false)
        × (user.is_active ≡ true)
        × (passes sv.passwords.verify password user.hashed_password ≡ true)
        × (w'.tasks ≡ w.tasks ++ send_verification_email email token ∷ [])
        × (accepted sv t token ≡ record rejected {
          email_verification =
              while_current sv now t
                (minutes 30)
                (sv.runtime.str response.id)
                (record w { draws = suc w.draws });
        })
  unfolding register_user
  register_user_effect t i {response} {w'} c h = elim (Option-cases (user_by_email sv email w)) [
    | inr (user, f) ↦ absurd (ground arith)
    | inl f ↦
        let same_state : after_registration ≡ w' = ground (arith, register_user_lem f) in
        let same_id : registered.id ≡ response.id = ground (arith, register_user_lem f) in
        let stored = registered_stored registered.id in
        let consistent = after_registration-IsConsistent c f in
        rw (← same_state, ← same_id)
          (
            registered,
            verification_token,
            consistent,
            user_by_email_of_get sv registered.id registered after_registration consistent
                (ground (arith, stored)),
            refl,
            sv.users.next_id_fresh w.users,
            registered_stored i,
            refl,
            refl,
            sv.passwords.verify-hash w.draws password,
            refl,
            ground (
              arith,
              accepted-encode sv now t (sv.runtime.str registered.id)
                  (record w { draws = suc w.draws }) "email_verification" (minutes 30),
            ),
          )
  ]
