-- ===== src/Api/Callers.antt =====
-- The two ways in which the dependency of a route ends, of app/auth/dependencies.py or
-- app/core/rbac.py: for a stored user, or refused; the state stays either way.
use fastapi_auth_api.Base.{ap, ◌∙◌, ℕ, ◌≡◌, String, ◌⊎◌, inl, inr, some, List, arith}
use fastapi_auth_api.Http.{ok, err, HttpException, Action, ◌>>=◌}
use fastapi_auth_api.Http.Rules.{result_cases, after_reader}
use fastapi_auth_api.Models.{User}
use fastapi_auth_api.Services.{Services, World}
use fastapi_auth_api.Rbac.{require_permissions}
use fastapi_auth_api.Rbac.Checks.{require_permissions_iff}
use fastapi_auth_api.Dependencies.Access.{get_current_user_iff, get_current_user_ws_agrees}
use fastapi_auth_api.Dependencies.{has_email, get_current_user, get_current_user_ws}

module _ (sv : Services) (now : ℕ) (token : sv.jwt.Token) (w : World sv) where
  -- The call lets a stored user through, or refuses; both leave the state.
  abbrev pub Admits : Action (World sv) User → Type 0
  Admits m =
      ((user : User) × (m w ≡ (ok user, w)) × (sv.users.get user.id w.users ≡ some user))
      ⊎ ((e : HttpException) × (m w ≡ (err e, w)))

  Admits-of_found :
      (m : Action (World sv) User)
      → (m w).1 ≡ w
      → ((user : User) → m w ≡ (ok user, w) → get_current_user sv now token w ≡ (ok user, w))
      → Admits m
  Admits-of_found m same let_through = elim (result_cases (m w)) [
    | inl (user, e) ↦
        let passed : m w ≡ (ok user, w) = e ∙ ap (λ v. (ok user, v)) same in
        let holder = (get_current_user_iff sv now token w user).0 (let_through user passed) in
        let (fits, stored) =
          sv.users.scalar_sound (has_email holder.claims.subject) user w.users holder.found in
        inl (user, passed, stored)
    | inr (x, e) ↦ inr (x, e ∙ ap (λ v. (err x, v)) same)
  ]

  reads : (get_current_user sv now token w).1 ≡ w
  unfolding get_current_user
  reads = ground arith

  reads_ws : (get_current_user_ws sv now token w).1 ≡ w
  unfolding get_current_user_ws
  reads_ws = ground arith

  reads_permitted : (required : List String) → (require_permissions sv now token required w).1 ≡ w
  unfolding require_permissions
  reads_permitted required = ground (arith, reads)

  pub get_current_user-Admits : Admits (get_current_user sv now token)
  get_current_user-Admits = Admits-of_found (get_current_user sv now token) reads (λ user h. h)

  pub get_current_user_ws-Admits : Admits (get_current_user_ws sv now token)
  get_current_user_ws-Admits =
      Admits-of_found (get_current_user_ws sv now token) reads_ws
        (λ user h. (get_current_user_ws_agrees sv now token w user).0.0 h)

  pub require_permissions-Admits :
      (required : List String) → Admits (require_permissions sv now token required)
  require_permissions-Admits required =
      Admits-of_found (require_permissions sv now token required) (reads_permitted required)
        (λ user h. ((require_permissions_iff sv now token w user required).0 h).0)

  -- A handler after such a dependency keeps what it keeps for every stored user.
  pub for_stored_user :
      {B : Type 0} (P : World sv → Type 0) (m : Action (World sv) User)
      (f : User → Action (World sv) B)
      → Admits m
      → ((user : User) → sv.users.get user.id w.users ≡ some user → P (f user w).1)
      → P w
      → P ((m >>= f) w).1
  for_stored_user P m f (inl (user, e, stored)) keeps p =
      after_reader P m f w (inl (user, e, keeps user stored)) p
  for_stored_user P m f (inr refused) keeps p = after_reader P m f w (inr refused) p

  pub by_me :
      {B : Type 0} (P : World sv → Type 0) (f : User → Action (World sv) B)
      → ((user : User) → sv.users.get user.id w.users ≡ some user → P (f user w).1)
      → P w
      → P ((get_current_user sv now token >>= f) w).1
  by_me P f = for_stored_user P (get_current_user sv now token) f get_current_user-Admits

  pub by_permitted :
      {B : Type 0} (P : World sv → Type 0) (required : List String) (m : Action (World sv) B)
      → P (m w).1
      → P w
      → P ((require_permissions sv now token required >>= λ _. m) w).1
  by_permitted P required m keeps =
      for_stored_user P (require_permissions sv now token required) (λ _. m)
        (require_permissions-Admits required) (λ user stored. keeps)
