-- ===== src/Oauth/Identity.antt =====
-- The account that a sign-in or a linking is for.
use fastapi_auth_api.Base.{
  ℕ, ◌≡◌, ◌≢◌, refl, sym, ap, ◌∙◌, String, true, false, inl, inr, Option, none, some, arith,
  Option-cases, Bool-cases, if◌then◌else◌, ◌==◌, ==_refl, eq_iff, pos,
}
use fastapi_auth_api.Http.{ok}
use fastapi_auth_api.Models.{User, OauthAccount}
use fastapi_auth_api.Services.{Services, World}
use fastapi_auth_api.Dependencies.{has_email, user_by_email}
use fastapi_auth_api.Auth.Recovery.{generic_message, forgot_password}
use fastapi_auth_api.Oauth.{Providers, link_account, sign_in, new_oauth_user, belongs_elsewhere}

module _ (sv : Services) (ps : Providers) (now : ℕ) (provider id : String) (w : World sv) where
  abbrev pub link_row : ℕ → Option String → OauthAccount
  link_row user_id email = record {
    id = sv.links.next_id w.links;
    user_id = user_id;
    provider = provider;
    provider_user_id = id;
    email = email;
    created_at = now;
  }

  -- A first sign-in that succeeds has an address from the provider. It is for the active account
  -- stored under exactly that address, which it links to the identity; it changes no other link.
  pub sign_in_first :
      (email : Option String) (i : ℕ) {user : User} {w' : World sv}
      → sign_in sv ps now provider id email none w ≡ (ok user, w')
      → (email ≡ some user.email)
        × (user.is_active ≡ true)
        × (sv.users.get user.id w'.users ≡ some user)
        × (sv.links.get i w'.links ≡ (
            if i == sv.links.next_id w.links
            then some (link_row user.id email)
            else sv.links.get i w.links))
  unfolding sign_in
  sign_in_first none i h = absurd (ground arith)
  sign_in_first (some address) i {user} {w'} h = elim (Option-cases (user_by_email sv address w)) [
    | inl e ↦
        let new = new_oauth_user sv ps now provider id (some address) address w in
        let same : user ≡ new = ground arith in
        let users : w'.users ≡ sv.users.save new w.users = ground arith in
        let links : w'.links ≡ sv.links.save (link_row new.id (some address)) w.links =
          ground arith in
        rw same (
          refl,
          refl,
          ground (arith, users, sv.users.get-save new.id new w.users, ==_refl new.id),
          ground (arith, links, sv.links.get-save i (link_row new.id (some address)) w.links),
        )
    | inr (old, e) ↦
        let (fits, stored) = sv.users.scalar_sound (has_email address) old w.users e in
        let same : user ≡ old = ground arith in
        let users : w'.users ≡ w.users = ground arith in
        let links : w'.links ≡ sv.links.save (link_row old.id (some address)) w.links =
          ground arith in
        let named : old.email ≡ address = (eq_iff old.email address).0 fits in
        let active : old.is_active ≡ true = ground arith in
        rw same (
          ap some (sym named),
          active,
          ground (arith, users, stored),
          ground (arith, links, sv.links.get-save i (link_row old.id (some address)) w.links),
        )
  ]

  -- The address that a provider gives is stored as it is. So after a first sign-in with an address
  -- that is not in lower case and that no account has, in that spelling or in lower case, the new
  -- account cannot recover a password: a request with its own address is answered, and mails nothing.
  pub sign_in_mixed_case :
      (address : String) {user : User} {w' : World sv}
      → user_by_email sv address w ≡ none
      → user_by_email sv (sv.runtime.lower address) w ≡ none
      → address ≢ sv.runtime.lower address
      → sign_in sv ps now provider id (some address) none w ≡ (ok user, w')
      → (user.email ≡ address) × (forgot_password sv now user.email w' ≡ (ok generic_message, w'))
  unfolding sign_in forgot_password
  sign_in_mixed_case address {user} {w'} absent absent_lower mixed h =
      let new = new_oauth_user sv ps now provider id (some address) address w in
      let same : user ≡ new = ground arith in
      let users : w'.users ≡ sv.users.save new w.users = ground arith in
      let email : user.email ≡ address = ap (λ u. u.email) same in
      let unfound : user_by_email sv (sv.runtime.lower address) w' ≡ none =
        elim (Option-cases (user_by_email sv (sv.runtime.lower address) w')) [
          | inl e ↦ e
          | inr (v, e) ↦
              let lowered = sv.runtime.lower address in
              let (fits, stored) = sv.users.scalar_sound (has_email lowered) v w'.users e in
              let named : v.email ≡ lowered = (eq_iff v.email lowered).0 fits in
              absurd (elim (Bool-cases (v.id == new.id)) [
                | inl a ↦
                    let is_new : new ≡ v =
                      ground (arith, users, stored, sv.users.get-save v.id new w.users) in
                    mixed (ap (λ u. u.email) is_new ∙ named)
                | inr a ↦
                    let old : sv.users.get v.id w.users ≡ some v =
                      ground (arith, users, stored, sv.users.get-save v.id new w.users) in
                    ground (
                      arith,
                      sv.users.scalar_none (has_email lowered) v.id v w.users absent_lower old,
                      fits,
                    )
              ])
        ] in
      let unfound' : user_by_email sv (sv.runtime.lower user.email) w' ≡ none =
        ap (λ a. user_by_email sv (sv.runtime.lower a) w') email ∙ unfound in
      (email, ground (arith, unfound'))

  -- A linking to an account id links the identity to that account alone: one that is linked to
  -- another account is refused with 409, one that is linked to this account stays as it is, and a
  -- new one gets one row.
  pub link_account_effect :
      (n : ℕ) (email : Option String) (existing : Option OauthAccount) {user : User} {w' : World sv}
      → link_account sv ps now provider id email (pos n) existing w ≡ (ok user, w')
      → (sv.users.get n w.users ≡ some user)
        × (belongs_elsewhere (some n) existing ≡ false)
        × (w' ≡ elim existing [
          | none ↦ record w { links = sv.links.save (link_row n email) w.links }
          | some _ ↦ w
        ])
  unfolding link_account
  link_account_effect n email none {user} h =
      let found : sv.users.get n w.users ≡ some user = ground arith in
      (found, refl, ground (arith, sv.users.get_key n user w.users found))
  link_account_effect n email (some link) h = (ground arith, ground arith, ground arith)
