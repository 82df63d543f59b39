-- ===== src/Api/Tables/Others.antt =====
-- The handlers of app/api/oauth.py and app/api/websocket.py, and the daily task, keep the users table consistent.
use Prim.Native.String.{◌++◌ as ◌&◌}
use fastapi_auth_api.Tokens.{create_access_token, create_refresh_token}
use fastapi_auth_api.Base.{
  ℕ, ◌≡◌, refl, sym, ap, ◌∙◌, subst, String, Bool, inl, inr, Option, none, some, List, arith,
  Option-cases, ℤ, after_prefix,
}
use fastapi_auth_api.Http.{◌>>=◌, ◌>>◌}
use fastapi_auth_api.Http.Rules.{Keeps, Keeps-bind}
use fastapi_auth_api.Models.{User, OauthAccount}
use fastapi_auth_api.Services.{Services, World}
use fastapi_auth_api.Services.Table.Deletion.{delete_where, unless, get-delete_where}
use fastapi_auth_api.Accounts.{IsConsistent, IsFree-of_none, save-IsConsistent}
use fastapi_auth_api.Dependencies.{user_by_email, get_current_user_ws}
use fastapi_auth_api.Realtime.{Received, websocket_endpoint}
use fastapi_auth_api.Realtime.Stores.{stores-websocket_endpoint}
use fastapi_auth_api.Oauth.{
  link_to, Providers, require_client, start, oauth_login, oauth_link, take_state, identify,
  issue_tokens, link_account, sign_in, new_oauth_user, user_by_purpose, account_of, finish,
  oauth_callback, unlink_provider, is_identity, unlink,
}
use fastapi_auth_api.Cleanup.{is_stale, cleanup_unverified_users}
use fastapi_auth_api.Api.{websocket_session}
use fastapi_auth_api.Api.Callers.{get_current_user_ws-Admits, for_stored_user, by_me}
use fastapi_auth_api.Api.Tables.Sessions.{IsFine}

-- The providers give addresses in lower case.
abbrev pub GivesLowerCase : Services → Providers → Type 0
GivesLowerCase sv ps =
    (provider id address : String) (token : ps.Token)
    → ps.fetch_identity provider token ≡ some (id, some address)
    → sv.runtime.lower address ≡ address

module _ (sv : Services) (ps : Providers) (now : ℕ) where
  settled :
      {v : sv.users.State} (v' : sv.users.State) → v ≡ v' → IsConsistent sv v' → IsConsistent sv v
  settled v' e c = subst (IsConsistent sv) (sym e) c

  sign_in-Keeps :
      (provider id : String) (email : Option String) (link : Option OauthAccount)
      → ((address : String) → email ≡ some address → sv.runtime.lower address ≡ address)
      → Keeps (IsFine sv now) (sign_in sv ps now provider id email link)
  unfolding sign_in
  sign_in-Keeps provider id email (some l) low w c = settled w.users (ground arith) c
  sign_in-Keeps provider id none none low w c = c
  sign_in-Keeps provider id (some address) none low w c =
      elim (Option-cases (user_by_email sv address w)) [
        | inr (old, e) ↦ settled w.users (ground (arith, e)) c
        | inl e ↦
            let new = new_oauth_user sv ps now provider id (some address) address w in
            settled (sv.users.save new w.users) (ground (arith, e)) (
              save-IsConsistent sv new w.users c (IsFree-of_none sv new w.users e)
                (low address refl))
      ]

  link-Keeps :
      (provider id : String) (email : Option String) (n : ℤ) (link : Option OauthAccount)
      → Keeps (IsFine sv now) (link_account sv ps now provider id email n link)
  unfolding link_account
  link-Keeps provider id email n link w c = settled w.users (ground arith) c

  link_to-Keeps :
      (provider id : String) (email : Option String) (n : Option ℤ) (link : Option OauthAccount)
      → Keeps (IsFine sv now) (link_to sv ps now provider id email n link)
  link_to-Keeps provider id email none link w c = c
  link_to-Keeps provider id email (some n) link w c = link-Keeps provider id email n link w c

  purpose-Keeps :
      (provider id : String) (email purpose : Option String) (link : Option OauthAccount)
      → ((address : String) → email ≡ some address → sv.runtime.lower address ≡ address)
      → Keeps (IsFine sv now) (user_by_purpose sv ps now provider id email purpose link)
  purpose-Keeps provider id email none link low w c = sign_in-Keeps provider id email link low w c
  purpose-Keeps provider id email (some text) link low w c =
      link_to-Keeps provider id email (sv.runtime.int text) link w c

  finish-Keeps :
      GivesLowerCase sv ps
      → (provider code value : String)
      → Keeps (IsFine sv now) (finish sv ps now provider code value)
  unfolding finish identify account_of issue_tokens create_access_token create_refresh_token
  finish-Keeps low provider code value w c =
      elim (Option-cases (ps.fetch_access_token provider (ps.callback_url provider) code)) [
        | inl e ↦ settled w.users (ground (arith, e)) c
        | inr (token, e) ↦ elim (Option-cases (ps.fetch_identity provider token)) [
          | inl f ↦ settled w.users (ground (arith, e, f)) c
          | inr ((id, email), f) ↦
              let link = sv.links.scalar (is_identity provider id) w.links in
              let purpose = after_prefix "link:" value in
              let account = user_by_purpose sv ps now provider id email purpose link w in
              settled account.1.users (ground (arith, e, f)) (
                purpose-Keeps provider id email purpose link
                  (λ address g. low provider id address token (f ∙ ap (λ m. some (id, m)) g)) w c)
        ]
      ]

  take_state-Keeps : (state : String) → Keeps (IsFine sv now) (take_state sv ps now state)
  unfolding take_state
  take_state-Keeps state w c = settled w.users (ground arith) c

  require-Keeps : (provider : String) → Keeps (IsFine sv now) (require_client sv ps now provider)
  unfolding require_client
  require-Keeps provider w c = settled w.users (ground arith) c

  start-Keeps :
      (provider purpose : String) → Keeps (IsFine sv now) (start sv ps now provider purpose)
  unfolding start
  start-Keeps provider purpose w c = settled w.users (ground arith) c

  pub callback-Keeps :
      GivesLowerCase sv ps
      → (provider code state : String)
      → Keeps (IsFine sv now) (oauth_callback sv ps now provider code state)
  unfolding oauth_callback
  callback-Keeps low provider code state =
      Keeps-bind (IsFine sv now) (require_client sv ps now provider)
        (λ _. take_state sv ps now state >>= finish sv ps now provider code)
        (require-Keeps provider)
        (λ _.
          Keeps-bind (IsFine sv now) (take_state sv ps now state) (finish sv ps now provider code)
            (take_state-Keeps state) (finish-Keeps low provider code))

  pub oauth_login-Keeps :
      (provider : String) → Keeps (IsFine sv now) (oauth_login sv ps now provider)
  unfolding oauth_login
  oauth_login-Keeps provider =
      Keeps-bind (IsFine sv now) (require_client sv ps now provider)
        (λ _. start sv ps now provider "login") (require-Keeps provider)
        (λ _. start-Keeps provider "login")

  pub oauth_link-Keeps :
      (provider : String) (token : sv.jwt.Token)
      → Keeps (IsFine sv now) (oauth_link sv ps now provider token)
  unfolding oauth_link
  oauth_link-Keeps provider token w c =
      let go = λ (user : User).
        require_client sv ps now provider
        >> start sv ps now provider ("link:" & sv.runtime.str user.id) in
      by_me sv now token w (IsFine sv now) go
        (λ user stored.
          Keeps-bind (IsFine sv now) (require_client sv ps now provider)
            (λ _. start sv ps now provider ("link:" & sv.runtime.str user.id))
            (require-Keeps provider) (λ _. start-Keeps provider ("link:" & sv.runtime.str user.id))
            w c)
        c

  unlink-Keeps :
      (provider : String) (user : User) → Keeps (IsFine sv now) (unlink sv ps now provider user)
  unfolding unlink
  unlink-Keeps provider user w c = settled w.users (ground arith) c

  pub unlink_provider-Keeps :
      (provider : String) (token : sv.jwt.Token)
      → Keeps (IsFine sv now) (unlink_provider sv ps now provider token)
  unfolding unlink_provider
  unlink_provider-Keeps provider token w c =
      by_me sv now token w (IsFine sv now) (unlink sv ps now provider)
        (λ user stored. unlink-Keeps provider user w c) c

  pub websocket-Keeps :
      (token : sv.jwt.Token) (works : ℕ → Bool) (reachable : Bool) (socket : ℕ)
      (messages : List Received)
      → Keeps (IsFine sv now) (websocket_session sv ps now token works reachable socket messages)
  unfolding websocket_session
  websocket-Keeps token works reachable socket messages w c =
      let go = λ (user : User). websocket_endpoint sv works reachable user socket messages in
      for_stored_user sv now token w (IsFine sv now) (get_current_user_ws sv now token) go
        (get_current_user_ws-Admits sv now token w)
        (λ user stored.
          settled w.users
            (ap (λ s. s.0) (stores-websocket_endpoint sv works reachable user socket messages w)) c)
        c

  -- A deletion keeps a table consistent.
  delete-IsConsistent :
      (p : User → Bool) (s : sv.users.State)
      → IsConsistent sv s
      → IsConsistent sv (delete_where sv.users p s)
  delete-IsConsistent p s c =
      let before = λ (i : ℕ) (u : User) (h : sv.users.get i (delete_where sv.users p s) ≡ some u).
        let stored : sv.users.get i s ≡ some u =
          unless_some p (sv.users.get i s) (sym (get-delete_where sv.users p i s) ∙ h) in
        stored in
      record {
        unique = λ i j u v g h e. c.unique i j u v (before i u g) (before j v h) e;
        lowered = λ i u g. c.lowered i u (before i u g);
      }
    where
      unless_some :
          (p : User → Bool) (o : Option User) {u : User} → unless sv.users p o ≡ some u → o ≡ some u
      unless_some p none h = h
      unless_some p (some v) h = ground arith

  pub cleanup-IsConsistent :
      (w : World sv)
      → IsConsistent sv w.users
      → IsConsistent sv (cleanup_unverified_users sv now w).1.users
  unfolding cleanup_unverified_users
  cleanup-IsConsistent w c = delete-IsConsistent (is_stale now) w.users c
