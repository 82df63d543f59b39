-- ===== src/Oauth/Unlink.antt =====
-- An account keeps a way to sign in when a provider is unlinked.
use fastapi_auth_api.Base.{
  ℕ, ◌≡◌, String, true, false, ◌⊎◌, inl, inr, some, List, [], ◌∷◌, arith, Option-cases, Bool-cases,
  ◌==◌, ==_iff, leb, length, is_none, All, eq_iff,
}
use fastapi_auth_api.Http.{ok}
use fastapi_auth_api.Models.{User, OauthAccount}
use fastapi_auth_api.Services.{Services, World}
use fastapi_auth_api.Services.Table.{DistinctKeys}
use fastapi_auth_api.Oauth.{Providers, is_of, is_of_provider, unlink}

-- Of two rows with distinct keys, one has another key than this.
another_row :
    (k : ℕ) (rows : List OauthAccount) (P : OauthAccount → Type 0)
    → DistinctKeys (λ a. a.id) rows
    → All P rows
    → leb (length rows) 1 ≡ false
    → (a : OauthAccount) × P a × ((a.id == k) ≡ false)
another_row k [] P distinct h long = absurd (ground arith)
another_row k (a ∷ []) P distinct h long = absurd (ground arith)
another_row k (a ∷ b ∷ rest) P distinct h long = elim (Bool-cases (a.id == k)) [
  | inl e ↦
      let apart = distinct.0.0 in
      (b, h.1.0, ground (arith, e, apart, ==_iff a.id k, ==_iff b.id k, ==_iff b.id a.id))
  | inr e ↦ (a, h.0, e)
]

module _ (sv : Services) (ps : Providers) (now : ℕ) (provider : String) (user : User)
    (w : World sv) where
  -- An unlinking that succeeds deletes one link of the user to that provider and no other row; the
  -- account has a password, or another link of it is still stored.
  pub unlink_keeps_sign_in :
      {w' : World sv}
      → unlink sv ps now provider user w ≡ (ok tt, w')
      → (link : OauthAccount) × (link.user_id ≡ user.id)
        × (link.provider ≡ provider)
        × (sv.links.get link.id w.links ≡ some link)
        × (w' ≡ record w { links = sv.links.delete link.id w.links })
        × ((is_none user.hashed_password ≡ false)
            ⊎ ((other : OauthAccount) × (other.user_id ≡ user.id)
                × (sv.links.get other.id w'.links ≡ some other)))
  unfolding unlink
  unlink_keeps_sign_in {w'} h =
      elim (Option-cases (sv.links.scalar (is_of_provider sv ps now user.id provider) w.links)) [
        | inl e ↦ absurd (ground arith)
        | inr (link, e) ↦
            let (fits, stored) =
              sv.links.scalar_sound (is_of_provider sv ps now user.id provider) link w.links e in
            let state : w' ≡ record w { links = sv.links.delete link.id w.links } = ground arith in
            (
              link,
              ground (arith, fits, ==_iff link.user_id user.id),
              ground (arith, fits, eq_iff link.provider provider),
              stored,
              state,
              elim (Bool-cases (is_none user.hashed_password)) [
                | inl f ↦
                    let rows = sv.links.scalars (is_of sv ps now user.id) w.links in
                    let (other, (mine, kept), apart) =
                      another_row link.id rows
                        (λ a.
                          (is_of sv ps now user.id a ≡ true) × (sv.links.get a.id w.links ≡ some a))
                        (sv.links.scalars_distinct (is_of sv ps now user.id) w.links)
                        (sv.links.scalars_sound (is_of sv ps now user.id) w.links) (ground arith) in
                    inr (
                      other,
                      (==_iff other.user_id user.id).0 mine,
                      ground
                          (arith, state, kept, apart, sv.links.get-delete other.id link.id w.links),
                    )
                | inr f ↦ inl f
              ],
            )
      ]
