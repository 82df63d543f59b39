-- ===== src/Oauth/State.antt =====
-- What the state of a sign-in protects, and what a sign-in gives.
use fastapi_auth_api.Base.{
  ℤ, ℕ, ◌≤◌, ◌≡◌, refl, String, inl, inr, Option, none, some, arith, Option-cases, after_prefix,
}
use package.text.Mathlib.TextPositions.{eq_refl}
use fastapi_auth_api.Http.{ok, err}
use fastapi_auth_api.Models.{OauthAccount}
use fastapi_auth_api.Services.{Services, World}
use fastapi_auth_api.Services.Redis.{text, Entry, live, text_of}
use fastapi_auth_api.Tokens.{create_access_token, create_refresh_token}
use fastapi_auth_api.Oauth.{
  is_identity, take_state, finish, identify, issue_tokens, account_of, Providers, state_key,
  invalid_state, require_client, link_account, sign_in, user_by_purpose, oauth_callback,
}

-- An entry that is gone stays gone.
dead_later :
    (now later : ℕ) (o : Option Entry)
    → now ≤ later
    → text_of (live now o) ≡ none
    → text_of (live later o) ≡ none
dead_later now later none order h = refl
dead_later now later (some e) order h = elim (Option-cases e.deadline) [
  | inl f ↦ ground (arith, f)
  | inr (d, f) ↦ ground (arith, f)
]

module _ (sv : Services) (ps : Providers) (now : ℕ) where
  redis-link_account :
      (provider id : String) (email : Option String) (linking : ℤ) (link : Option OauthAccount)
      (w : World sv)
      → (link_account sv ps now provider id email linking link w).1.redis ≡ w.redis
  unfolding link_account
  redis-link_account provider id email linking link w = ground arith

  redis-sign_in :
      (provider id : String) (email : Option String) (link : Option OauthAccount) (w : World sv)
      → (sign_in sv ps now provider id email link w).1.redis ≡ w.redis
  unfolding sign_in
  redis-sign_in provider id none link w = ground arith
  redis-sign_in provider id (some address) link w = ground arith

  redis-user_by_purpose :
      (provider id : String) (email : Option String) (purpose : Option String)
      (link : Option OauthAccount) (w : World sv)
      → (user_by_purpose sv ps now provider id email purpose link w).1.redis ≡ w.redis
  redis-user_by_purpose provider id email none link w = redis-sign_in provider id email link w
  redis-user_by_purpose provider id email (some n) link w = elim (Option-cases (sv.runtime.int n)) [
    | inl e ↦ ground (arith, e)
    | inr (z, e) ↦ ground (arith, e, redis-link_account provider id email z link w)
  ]

  redis-account_of :
      (provider value id : String) (email : Option String) (w : World sv)
      → (account_of sv ps now provider value (id, email) w).1.redis ≡ w.redis
  unfolding account_of
  redis-account_of provider value id email w =
      redis-user_by_purpose provider id email (after_prefix "link:" value)
        (sv.links.scalar (is_identity provider id) w.links) w

  pub redis-finish :
      (provider code value : String) (w : World sv)
      → (finish sv ps now provider code value w).1.redis ≡ w.redis
  unfolding finish identify issue_tokens create_access_token create_refresh_token
  redis-finish provider code value w =
      elim (Option-cases (ps.fetch_access_token provider (ps.callback_url provider) code)) [
        | inl e ↦ ground (arith, e)
        | inr (token, e) ↦ elim (Option-cases (ps.fetch_identity provider token)) [
          | inl f ↦ ground (arith, e, f)
          | inr ((id, email), f) ↦ ground (arith, e, f, redis-account_of provider value id email w)
        ]
      ]

module _ (sv : Services) (ps : Providers) (now : ℕ) (provider code state : String)
    (w : World sv) where
  abbrev pub called : World sv
  called = (oauth_callback sv ps now provider code state w).1

  -- The state is gone after the call.
  state_spent :
      require_client sv ps now provider w ≡ (ok tt, w)
      → text_of (live now (sv.redis.peek (state_key state) called.redis)) ≡ none
  unfolding oauth_callback take_state
  state_spent passes =
      let stored = sv.redis.get_lem (state_key state) now w.redis in
      elim (Option-cases (sv.redis.get (state_key state) now w.redis)) [
        | inl e ↦ ground (arith, e, passes, stored)
        | inr (value, e) ↦
            let taken : World sv = record w { redis = sv.redis.delete (state_key state) w.redis } in
            let kept = redis-finish sv ps now provider code value taken in
            let gone = sv.redis.peek-delete (state_key state) (state_key state) w.redis in
            ground (arith, e, passes, kept, gone, eq_refl (state_key state))
      ]

  -- A callback of a known and configured provider spends its state: however it ended, a later
  -- callback with the same state, of any such provider, is answered 400 and changes nothing.
  pub oauth_callback_once :
      (later : ℕ) (other code' : String)
      → require_client sv ps now provider w ≡ (ok tt, w)
      → require_client sv ps later other called ≡ (ok tt, called)
      → now ≤ later
      → oauth_callback sv ps later other code' state called ≡ (err invalid_state, called)
  unfolding oauth_callback take_state
  oauth_callback_once later other code' known known' order =
      let gone =
        dead_later now later (sv.redis.peek (state_key state) called.redis) order
          (state_spent known) in
      ground (arith, known', gone, sv.redis.get_lem (state_key state) later called.redis)
