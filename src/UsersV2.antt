-- ===== src/UsersV2.antt =====
-- app/api/v2/users.py, app/schemas/user.py and app/schemas/user_v2.py: the users routes of version
-- 2, whose answers name the linked providers, beside the answers of version 1.
use fastapi_auth_api.Base.{ℕ, ◌≡◌, refl, sym, ap, ◌∙◌, String, Bool, Option, List, map, ◌==◌}
use fastapi_auth_api.Http.{Result, Action, ok, err, gets, ◌>>=◌}
use fastapi_auth_api.Http.Rules.{continue, continue_lem, bind_assoc}
use fastapi_auth_api.Models.{User}
use fastapi_auth_api.Services.{Services, World}
use fastapi_auth_api.Dependencies.{get_current_user}
use fastapi_auth_api.Rbac.{roles_of}
use fastapi_auth_api.Profile.{
  update_given, update_current_user, read_current_user, change_user_password, deactivate_user,
  change_current_user_password, deactivate_current_user,
}

pub record UserResponse : Type 0 where
  pub id : ℕ
  pub email : String
  pub is_active : Bool
  pub is_verified : Bool
  pub roles : List String

pub record UserResponseV2 : Type 0 where
  pub id : ℕ
  pub email : String
  pub is_active : Bool
  pub is_verified : Bool
  pub roles : List String
  pub oauth_providers : List String

-- What version 1 says of an answer of version 2.
abbrev pub without_providers : UserResponseV2 → UserResponse
without_providers r = record {
  id = r.id;
  email = r.email;
  is_active = r.is_active;
  is_verified = r.is_verified;
  roles = r.roles;
}

module _ (sv : Services) where
  -- The answer of version 1 for an account: the names of its roles for the roles.
  abbrev pub user_response : User → World sv → UserResponse
  user_response user w = record {
    id = user.id;
    email = user.email;
    is_active = user.is_active;
    is_verified = user.is_verified;
    roles = map (λ r. r.name) (roles_of sv user w);
  }

  -- `read_current_user(current_user, db)`
  unfoldable pub user_response_v2 : User → World sv → UserResponseV2
  user_response_v2 current_user w =
      let linked_providers = sv.links.scalars (λ a. a.user_id == current_user.id) w.links in
      record {
        id = current_user.id;
        email = current_user.email;
        is_active = current_user.is_active;
        is_verified = current_user.is_verified;
        roles = map (λ r. r.name) (roles_of sv current_user w);
        oauth_providers = map (λ a. a.provider) linked_providers;
      }

  module _ (now : ℕ) (token : sv.jwt.Token) where
    -- GET /users/me
    unfoldable pub read_current_user_v2 : Action (World sv) UserResponseV2
    read_current_user_v2 = do
      current_user ← get_current_user sv now token
      gets (user_response_v2 current_user)

    -- PATCH /users/me
    unfoldable pub update_current_user_v2 : Option String → Action (World sv) UserResponseV2
    update_current_user_v2 email = do
      current_user ← get_current_user sv now token
      user ← update_given sv current_user email
      gets (user_response_v2 user)

    -- POST /users/me/change-password
    unfoldable pub change_current_user_password_v2 : String → String → Action (World sv) (Unit {0})
    change_current_user_password_v2 current_password new_password = do
      current_user ← get_current_user sv now token
      change_user_password sv current_user current_password new_password

    -- DELETE /users/me
    unfoldable pub deactivate_current_user_v2 : Action (World sv) (Unit {0})
    deactivate_current_user_v2 = do
      current_user ← get_current_user sv now token
      deactivate_user sv current_user

-- The answer that a route of version 1 gives for the account that its handler returns.
abbrev pub answered : (sv : Services) → Action (World sv) User → Action (World sv) UserResponse
answered sv handler = handler >>= λ user. gets (user_response sv user)

-- What a client of version 1 sees of an answer of version 2.
abbrev pub seen_v1 : {S : Type 0} → Result UserResponseV2 × S → Result UserResponse × S
seen_v1 (ok r, s) = (ok (without_providers r), s)
seen_v1 (err e, s) = (err e, s)

seen_state : {S : Type 0} (x : Result UserResponseV2 × S) → (seen_v1 x).1 ≡ x.1
seen_state (ok r, s) = refl
seen_state (err e, s) = refl

module _ (sv : Services) (w : World sv) where
  seen_answer :
      (x : Result User × World sv)
      → seen_v1 (continue (λ user. gets (user_response_v2 sv user)) x)
        ≡ continue (λ user. gets (user_response sv user)) x
  unfolding user_response_v2
  seen_answer (ok user, s) = refl
  seen_answer (err e, s) = refl

  -- A handler of version 1 with the answer of version 2 is, to a client of version 1, version 1.
  answers_agree :
      (handler : Action (World sv) User)
      → seen_v1 ((handler >>= λ user. gets (user_response_v2 sv user)) w) ≡ answered sv handler w
  answers_agree handler =
      ap seen_v1 (sym (continue_lem (λ user. gets (user_response_v2 sv user)) (handler w)))
      ∙ seen_answer (handler w)
      ∙ continue_lem (λ user. gets (user_response sv user)) (handler w)

  answered_state :
      (x : Result User × World sv) → (continue (λ user. gets (user_response sv user)) x).1 ≡ x.1
  answered_state (ok user, s) = refl
  answered_state (err e, s) = refl

  module _ (now : ℕ) (token : sv.jwt.Token) where
    read_agrees :
        seen_v1 (read_current_user_v2 sv now token w)
        ≡ answered sv (read_current_user sv now token) w
    unfolding read_current_user_v2 read_current_user
    read_agrees = answers_agree (get_current_user sv now token)

    update_agrees :
        (email : Option String)
        → seen_v1 (update_current_user_v2 sv now token email w)
          ≡ answered sv (update_current_user sv now token email) w
    unfolding update_current_user_v2 update_current_user
    update_agrees email =
        ap seen_v1 (
          bind_assoc (get_current_user sv now token) (λ user. update_given sv user email)
            (λ user. gets (user_response_v2 sv user)) w)
        ∙ answers_agree (get_current_user sv now token >>= λ user. update_given sv user email)

    pub update_state :
        (email : Option String)
        → (update_current_user sv now token email w).1
          ≡ (update_current_user_v2 sv now token email w).1
    update_state email =
        let x = update_current_user_v2 sv now token email w in
        let y = update_current_user sv now token email w in
        sym (answered_state y)
        ∙ ap (λ z. z.1) (continue_lem (λ user. gets (user_response sv user)) y)
        ∙ ap (λ z. z.1) (sym (update_agrees email))
        ∙ seen_state x

    -- A client of version 1 that is served by the routes of version 2 sees no difference: reading
    -- and updating the account, changing the password and deactivating it answer as in version 1
    -- but for the providers, refusals included, and leave the same state.
    pub users_v2_agree :
        (email : Option String) (current_password new_password : String)
        → (seen_v1 (read_current_user_v2 sv now token w)
            ≡ answered sv (read_current_user sv now token) w)
          × (seen_v1 (update_current_user_v2 sv now token email w)
              ≡ answered sv (update_current_user sv now token email) w)
          × (change_current_user_password_v2 sv now token current_password new_password w
              ≡ change_current_user_password sv now token current_password new_password w)
          × (deactivate_current_user_v2 sv now token w ≡ deactivate_current_user sv now token w)
    unfolding change_current_user_password_v2 change_current_user_password
        deactivate_current_user_v2 deactivate_current_user
    users_v2_agree email current_password new_password =
        (read_agrees, update_agrees email, refl, refl)
