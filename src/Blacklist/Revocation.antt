-- ===== src/Blacklist/Revocation.antt =====
-- What a revoked or spent token identifier does to later lookups.
use Prim.Native.Char.{Char, code}
use Prim.Native.String.{◌++◌}
use package.text.Mathlib.TextLemmas.{cons-append, append_cancel_left}
use package.text.Mathlib.TextPositions.{eq_refl}
use fastapi_auth_api.Base.{
  ℕ, zero, suc, ◌+◌, ◌*◌, ◌≡◌, ap, sym, ◌∙◌, String, false, ◌&&◌, inl, inr, arith, if◌then◌else◌,
  ltb, str_eq, eq_iff, Bool-cases,
}
use fastapi_auth_api.Services.Redis.{second, Redis}
use fastapi_auth_api.Blacklist.{
  blacklist_key, used_key, blacklist_token, is_token_blacklisted, mark_token_used, is_token_used,
}

-- Two keys with one prefix are equal exactly when what follows is.
pub str_eq-append_left : (prefix a b : String) → str_eq (prefix ++ a) (prefix ++ b) ≡ str_eq a b
str_eq-append_left prefix a b = elim (Bool-cases (str_eq a b)) [
  | inl e ↦ rw ((eq_iff a b).0 e) (eq_refl (prefix ++ b) ∙ sym (eq_refl b))
  | inr e ↦ elim (Bool-cases (str_eq (prefix ++ a) (prefix ++ b))) [
    | inl f ↦
        let same : a ≡ b =
          append_cancel_left prefix a b ((eq_iff (prefix ++ a) (prefix ++ b)).0 f) in
        f ∙ sym ((eq_iff a b).1 same)
    | inr f ↦ f ∙ sym e
  ]
]

unfoldable pub head_code : String → ℕ
head_code String.[] = 0
head_code (String.◌∷◌ c s) = code c

pub head_code-append : (c : Char) (s t : String) → head_code (String.◌∷◌ c s ++ t) ≡ code c
unfolding head_code
head_code-append c s t = rw cons-append

pub used-ne-blacklist : (a b : String) → str_eq (used_key a) (blacklist_key b) ≡ false
unfolding head_code
used-ne-blacklist a b = elim (Bool-cases (str_eq (used_key a) (blacklist_key b))) [
  | inl e ↦
      let same : used_key a ≡ blacklist_key b = (eq_iff (used_key a) (blacklist_key b)).0 e in
      absurd (
        omega (
          arith,
          ap head_code same,
          head_code-append "u" "sed:token:" a,
          head_code-append "b" "lacklist:token:" b,
        ))
  | inr e ↦ e
]

pub blacklist-ne-used : (a b : String) → str_eq (blacklist_key a) (used_key b) ≡ false
unfolding head_code
blacklist-ne-used a b = elim (Bool-cases (str_eq (blacklist_key a) (used_key b))) [
  | inl e ↦
      let same : blacklist_key a ≡ used_key b = (eq_iff (blacklist_key a) (used_key b)).0 e in
      absurd (
        omega (
          arith,
          ap head_code same,
          head_code-append "u" "sed:token:" b,
          head_code-append "b" "lacklist:token:" a,
        ))
  | inr e ↦ e
]

module _ (r : Redis) (now later : ℕ) (j jti : String) (s : r.State) where
  -- Revoking an identifier is seen until the given time to live is over, and touches neither
  -- another identifier nor any spent token; a time to live of zero changes nothing.
  pub blacklist_token_effect :
      (ttl : ℕ)
      → (is_token_blacklisted r later j (blacklist_token r now jti ttl s) ≡ (
          if ltb 0 ttl && str_eq j jti
          then ltb later (now + ttl * second)
          else is_token_blacklisted r later j s))
        × (is_token_used r later j (blacklist_token r now jti ttl s) ≡ is_token_used r later j s)
  unfolding blacklist_token is_token_blacklisted is_token_used
  blacklist_token_effect zero = ground arith
  blacklist_token_effect (suc ttl) = ground (
    arith,
    r.exists_lem (blacklist_key j) later (r.set (blacklist_key jti) "1" (suc ttl) now s),
    r.exists_lem (blacklist_key j) later s,
    r.exists_lem (used_key j) later (r.set (blacklist_key jti) "1" (suc ttl) now s),
    r.exists_lem (used_key j) later s,
    r.peek-set (blacklist_key j) (blacklist_key jti) "1" (suc ttl) now s,
    r.peek-set (used_key j) (blacklist_key jti) "1" (suc ttl) now s,
    str_eq-append_left "blacklist:token:" j jti,
    used-ne-blacklist j jti,
  )

  pub mark_token_used_effect :
      (ttl : ℕ)
      → (is_token_used r later j (mark_token_used r now jti ttl s) ≡ (
          if ltb 0 ttl && str_eq j jti
          then ltb later (now + ttl * second)
          else is_token_used r later j s))
        × (is_token_blacklisted r later j (mark_token_used r now jti ttl s)
            ≡ is_token_blacklisted r later j s)
  unfolding mark_token_used is_token_blacklisted is_token_used
  mark_token_used_effect zero = ground arith
  mark_token_used_effect (suc ttl) = ground (
    arith,
    r.exists_lem (blacklist_key j) later (r.set (used_key jti) "1" (suc ttl) now s),
    r.exists_lem (blacklist_key j) later s,
    r.exists_lem (used_key j) later (r.set (used_key jti) "1" (suc ttl) now s),
    r.exists_lem (used_key j) later s,
    r.peek-set (blacklist_key j) (used_key jti) "1" (suc ttl) now s,
    r.peek-set (used_key j) (used_key jti) "1" (suc ttl) now s,
    str_eq-append_left "used:token:" j jti,
    blacklist-ne-used j jti,
  )

-- Only the entry of its own key decides whether an identifier is revoked or spent.
module _ (r : Redis) (t : ℕ) (j : String) (s s' : r.State) where
  pub is_token_blacklisted_local :
      r.peek (blacklist_key j) s ≡ r.peek (blacklist_key j) s'
      → is_token_blacklisted r t j s ≡ is_token_blacklisted r t j s'
  unfolding is_token_blacklisted
  is_token_blacklisted_local h =
      ground (arith, r.exists_lem (blacklist_key j) t s, r.exists_lem (blacklist_key j) t s')

  pub is_token_used_local :
      r.peek (used_key j) s ≡ r.peek (used_key j) s'
      → is_token_used r t j s ≡ is_token_used r t j s'
  unfolding is_token_used
  is_token_used_local h =
      ground (arith, r.exists_lem (used_key j) t s, r.exists_lem (used_key j) t s')
