-- ===== src/Oauth/Clients.antt =====
-- app/core/oauth.py: the clients of the providers, over what Authlib does, and the identity that they
-- read.
use fastapi_auth_api.Base.{
  ℕ, ◌≡◌, refl, ap, ◌∙◌, String, Bool, true, ◌&&◌, Option, none, some, List, [], ◌∷◌, str_eq,
  contains, if◌then◌else◌, ◌⊎◌, inl, inr, Bool-cases, arith,
}
use mathlib.Core.Option
use fastapi_auth_api.Services.Table.{Occurs}
use fastapi_auth_api.Settings.{Settings, is_registered}
use fastapi_auth_api.Oauth.{Providers, supported_providers}

-- What GitHub says of an address of the user.
pub record GithubEmail : Type 0 where
  pub email : String
  pub primary : Bool
  pub verified : Bool

-- The calls of Authlib for a provider, and `secrets.token_urlsafe`; `none` is a call that raises, or
-- whose `raise_for_status` does. The id of a GitHub profile is the text that `str` makes of it.
pub record Authlib : Type 1 where
  pub Token : Type 0
  pub create_authorization_url : String → String → String → Option String
  pub fetch_access_token : String → String → String → Option Token
  pub userinfo : String → Token → Option (String × Option String)
  pub github_user : Token → Option (String × Option String)
  pub github_user_emails : Token → Option (List GithubEmail)
  pub token_urlsafe : ℕ → String

-- `next((item["email"] for item in items if ...), None)`
abbrev pub primary_email : List GithubEmail → Option String
primary_email [] = none
primary_email (item ∷ items) =
    if item.primary && item.verified then some item.email else primary_email items

abbrev address : Option (String × Option String) → Option String
address none = none
address (some (i, email)) = email

module _ (authlib : Authlib) where
  abbrev pub with_email : authlib.Token → String × Option String → Option (String × Option String)
  with_email token (provider_user_id, some email) = some (provider_user_id, some email)
  with_email token (provider_user_id, none) =
      Option.map (λ items. (provider_user_id, primary_email items))
        (authlib.github_user_emails token)

  unfoldable pub fetch_github_identity : authlib.Token → Option (String × Option String)
  unfolding Option.bind
  fetch_github_identity token = Option.bind (authlib.github_user token) (with_email token)

  unfoldable pub fetch_identity : String → authlib.Token → Option (String × Option String)
  unfolding fetch_github_identity
  fetch_identity provider token =
      if str_eq provider "github"
      then fetch_github_identity token
      else authlib.userinfo provider token

  -- `get_oauth_client(provider) is not None`
  unfoldable pub has_client : Settings → String → Bool
  unfolding is_registered
  has_client settings provider =
      contains provider supported_providers && is_registered settings provider

  -- The clients that the router works with.
  abbrev pub authlib_providers : Settings → (String → String) → Providers
  authlib_providers settings callback_url = record {
    Token = authlib.Token;
    configured = has_client settings;
    callback_url = callback_url;
    create_authorization_url = authlib.create_authorization_url;
    fetch_access_token = authlib.fetch_access_token;
    fetch_identity = fetch_identity;
    token_urlsafe = authlib.token_urlsafe;
  }

  primary_email-some :
      (items : List GithubEmail) (email : String)
      → primary_email items ≡ some email
      → (item : GithubEmail) × Occurs item items
        × (item.email ≡ email)
        × (item.primary ≡ true)
        × (item.verified ≡ true)
  primary_email-some [] email h = ground arith
  primary_email-some (item ∷ items) email h = elim (Bool-cases (item.primary && item.verified)) [
    | inl e ↦ (item, inl refl, ground (arith, e, h), ground (arith, e), ground (arith, e))
    | inr e ↦
        let (found, among, same, primary, verified) =
          primary_email-some items email (ground (arith, e, h)) in
        (found, inr among, same, primary, verified)
  ]

  -- The address is one that GitHub lists as the primary one and as verified.
  abbrev pub IsListed : authlib.Token → String → Type 0
  IsListed token email =
      (items : List GithubEmail) × (authlib.github_user_emails token ≡ some items)
      × (item : GithubEmail) × Occurs item items
      × (item.email ≡ email)
      × (item.primary ≡ true)
      × (item.verified ≡ true)

  listed :
      (token : authlib.Token) (o : Option (List GithubEmail)) (i provider_user_id email : String)
      → authlib.github_user_emails token ≡ o
      → Option.map {B = String × Option String} (λ items. (i, primary_email items)) o
        ≡ some (provider_user_id, some email)
      → IsListed token email
  listed token none i provider_user_id email e h = ground arith
  listed token (some items) i provider_user_id email e h =
      let (item, among, same, primary, verified) =
        primary_email-some items email (ap (λ x. address x) h) in
      (items, e, item, among, same, primary, verified)

  of_profile :
      (token : authlib.Token) (o : Option (String × Option String))
      (provider_user_id email : String)
      → authlib.github_user token ≡ o
      → Option.bind o (with_email token) ≡ some (provider_user_id, some email)
      → (authlib.github_user token ≡ some (provider_user_id, some email)) ⊎ IsListed token email
  unfolding Option.bind
  of_profile token none provider_user_id email e h = ground arith
  of_profile token (some (i, some known)) provider_user_id email e h = inl (e ∙ h)
  of_profile token (some (i, none)) provider_user_id email e h =
      inr (listed token (authlib.github_user_emails token) i provider_user_id email refl h)

  -- An identity that GitHub gives has the address of the profile, where that shows one; otherwise
  -- the address is one that GitHub lists as the primary one and as verified.
  pub fetch_identity_github :
      (token : authlib.Token) (provider_user_id email : String)
      → fetch_identity "github" token ≡ some (provider_user_id, some email)
      → (authlib.github_user token ≡ some (provider_user_id, some email)) ⊎ IsListed token email
  unfolding fetch_identity fetch_github_identity Option.bind
  fetch_identity_github token provider_user_id email h =
      of_profile token (authlib.github_user token) provider_user_id email refl h
