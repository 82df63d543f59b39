-- ===== src/Dependencies/Access.antt =====
-- Which requests `get_current_user` lets through, over HTTP and over a WebSocket.
use fastapi_auth_api.Base.{
  ℕ, ◌≡◌, ◌≢◌, ◌↔◌, true, false, ◌⊎◌, inl, inr, some, arith, Option-cases, eq_iff,
}
use fastapi_auth_api.Http.{ok, err, Refuses}
use fastapi_auth_api.Models.{User}
use fastapi_auth_api.Services.{Services, World}
use fastapi_auth_api.Services.Jwt.{Payload}
use fastapi_auth_api.Tokens.{TokenClaims, decode_access_token}
use fastapi_auth_api.Tokens.Kinds.{decode_token-encode}
use fastapi_auth_api.Blacklist.{is_token_blacklisted}
use fastapi_auth_api.Dependencies.{
  bearer, policy_violation, user_by_email, get_current_user, get_current_user_ws,
}

module _ (sv : Services) (t : ℕ) (token : sv.jwt.Token) (w : World sv) where
  -- The token is an access token that is current and not revoked, and its subject is the address
  -- of this active account.
  pub record IsHolder (user : User) : Type 0 where
    pub claims : TokenClaims
    pub decoded : decode_access_token sv t token ≡ some claims
    pub not_revoked : is_token_blacklisted sv.redis t claims.jti w.redis ≡ false
    pub found : user_by_email sv claims.subject w ≡ some user
    pub active : user.is_active ≡ true

  -- A request is let through as a user exactly when that user holds the token.
  pub get_current_user_iff :
      (user : User) → (get_current_user sv t token w ≡ (ok user, w)) ↔ IsHolder user
  unfolding get_current_user
  get_current_user_iff user = (sound, λ h. ground arith)
    where
      sound : get_current_user sv t token w ≡ (ok user, w) → IsHolder user
      sound h = elim (Option-cases (decode_access_token sv t token)) [
        | inl e ↦ absurd (ground arith)
        | inr (c, e) ↦ record {
          claims = c;
          decoded = e;
          not_revoked = ground arith;
          found = ground arith;
          active = ground arith;
        }
      ]

  -- A WebSocket handshake and an HTTP request let the same tokens through as the same users; the
  -- handshake answers every refusal by a policy violation, the request by 401 or 403. Neither
  -- changes the state.
  pub get_current_user_ws_agrees :
      (user : User)
      → ((get_current_user_ws sv t token w ≡ (ok user, w))
          ↔ (get_current_user sv t token w ≡ (ok user, w)))
        × Refuses (λ e. e ≡ policy_violation) (get_current_user_ws sv t token w).0
        × Refuses
            (λ e. (e.status_code ≡ 401) ⊎ (e.status_code ≡ 403))
            (get_current_user sv t token w).0
        × ((get_current_user_ws sv t token w).1 ≡ w)
        × ((get_current_user sv t token w).1 ≡ w)
  unfolding get_current_user get_current_user_ws
  get_current_user_ws_agrees user = (
    (λ h. ground arith, λ h. ground arith),
    ground arith,
    ground arith,
    ground arith,
    ground arith,
  )

-- A signed token whose type is not "access" is refused at all times.
pub get_current_user_other_type :
    (sv : Services) (t : ℕ) (p : Payload) (w : World sv)
    → p.type ≢ "access"
    → get_current_user sv t (sv.jwt.encode p) w
      ≡ (err (bearer "Invalid or expired access token"), w)
unfolding get_current_user
get_current_user_other_type sv t p w h =
    ground (arith, decode_token-encode sv t "access" p, eq_iff p.type "access")
