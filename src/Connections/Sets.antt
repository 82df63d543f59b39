-- ===== src/Connections/Sets.antt =====
-- The open sockets of a user after a connect and after a disconnect.
use fastapi_auth_api.Base.{
  ℕ, ◌≡◌, ◌≢◌, refl, true, false, inl, inr, none, some, List, [], ◌∷◌, arith, Bool-cases,
  Option-cases, All, ◌==◌, ==_iff, ==_refl, if◌then◌else◌,
}
use fastapi_auth_api.Connections.{
  Connections, lookup, add, discard, replace, pop, connect, disconnect, after_discard, sockets_of,
  is_filled,
}

-- The number is none of the list.
abbrev pub Misses : ℕ → List ℕ → Type 0
Misses x ys = All (λ y. (x == y) ≡ false) ys

-- A dict of sets: no user stands twice, and nobody has an empty set.
abbrev pub IsTidy : Connections → Type 0
IsTidy [] = Unit
IsTidy ((u, sockets) ∷ cs) =
    All (λ c. (u == c.0) ≡ false) cs × (is_filled (some sockets) ≡ true) × IsTidy cs

discard-add : (s : ℕ) (ss : List ℕ) → Misses s ss → discard s (add s ss) ≡ ss
discard-add s [] m = ground (arith, ==_refl s)
discard-add s (x ∷ xs) m = ground (arith, discard-add s xs m.1)

lookup_absent : (u : ℕ) (cs : Connections) → All (λ c. (u == c.0) ≡ false) cs → lookup u cs ≡ none
lookup_absent u [] h = refl
lookup_absent u ((x, xs) ∷ cs) h = ground (arith, lookup_absent u cs h.1, h.0)

lookup-pop :
    (v u : ℕ) (cs : Connections)
    → IsTidy cs
    → lookup v (pop u cs) ≡ (if v == u then none else lookup v cs)
lookup-pop v u [] tidy = ground arith
lookup-pop v u ((x, xs) ∷ cs) tidy =
    ground (
      arith,
      lookup_absent x cs tidy.0,
      lookup-pop v u cs tidy.2,
      ==_iff v u,
      ==_iff u x,
      ==_iff v x,
    )

lookup-replace :
    (v u : ℕ) (ss : List ℕ) (cs : Connections)
    → lookup u cs ≢ none
    → lookup v (replace u ss cs) ≡ (if v == u then some ss else lookup v cs)
lookup-replace v u ss [] h = absurd (h refl)
lookup-replace v u ss ((x, xs) ∷ cs) h = elim (Bool-cases (u == x)) [
  | inl e ↦ ground (arith, ==_iff u x, ==_iff v u, ==_iff v x)
  | inr e ↦
      let later : lookup u cs ≢ none = λ none_later. h (ground (arith, none_later)) in
      ground (arith, lookup-replace v u ss cs later, ==_iff v u, ==_iff v x, ==_iff u x)
]

-- The sockets that a user has open: the empty set for a user who has no entry.
abbrev pub open_sockets : ℕ → Connections → List ℕ
open_sockets user cs = sockets_of (lookup user cs)

pub open-connect :
    (v user socket : ℕ) (cs : Connections)
    → open_sockets v (connect user socket cs)
      ≡ (if v == user then add socket (open_sockets user cs) else open_sockets v cs)
unfolding connect
open-connect v user socket [] = ground arith
open-connect v user socket ((x, xs) ∷ cs) =
    ground (arith, open-connect v user socket cs, ==_iff v user, ==_iff user x, ==_iff v x)

open_after_discard :
    (v user : ℕ) (left : List ℕ) (cs : Connections)
    → IsTidy cs
    → lookup user cs ≢ none
    → open_sockets v (after_discard user left cs) ≡ (if v == user then left else open_sockets v cs)
open_after_discard v user [] cs tidy there = ground (arith, lookup-pop v user cs tidy)
open_after_discard v user (s ∷ ss) cs tidy there =
    ground (arith, lookup-replace v user (s ∷ ss) cs there)

pub open-disconnect :
    (v user socket : ℕ) (cs : Connections)
    → IsTidy cs
    → open_sockets v (disconnect user socket cs)
      ≡ (if v == user then discard socket (open_sockets user cs) else open_sockets v cs)
unfolding disconnect
open-disconnect v user socket cs tidy = elim (Option-cases (lookup user cs)) [
  | inl e ↦ ground (arith, ==_iff v user, e)
  | inr (ss, e) ↦
      let there : lookup user cs ≢ none = λ f. ground (arith, e, f) in
      ground (arith, e, open_after_discard v user (discard socket ss) cs tidy there)
]

absent-connect :
    (x user socket : ℕ) (cs : Connections)
    → (x == user) ≡ false
    → All (λ c. (x == c.0) ≡ false) cs
    → All (λ c. (x == c.0) ≡ false) (connect user socket cs)
unfolding connect
absent-connect x user socket [] apart h = (apart, tt)
absent-connect x user socket ((y, ys) ∷ cs) apart h = elim (Bool-cases (user == y)) [
  | inl e ↦ rw e (h.0, h.1)
  | inr e ↦ rw e (h.0, absent-connect x user socket cs apart h.1)
]

add_filled : (s : ℕ) (ss : List ℕ) → is_filled (some (add s ss)) ≡ true
add_filled s [] = refl
add_filled s (x ∷ xs) = ground arith

-- A connect keeps the dict tidy.
pub connect-IsTidy :
    (user socket : ℕ) (cs : Connections) → IsTidy cs → IsTidy (connect user socket cs)
unfolding connect
connect-IsTidy user socket [] tidy = (tt, refl, tt)
connect-IsTidy user socket ((x, xs) ∷ cs) tidy = elim (Bool-cases (user == x)) [
  | inl e ↦ rw e (tidy.0, add_filled socket xs, tidy.2)
  | inr e ↦ rw e (
    absent-connect x user socket cs (ground (arith, ==_iff x user, ==_iff user x)) tidy.0,
    tidy.1,
    connect-IsTidy user socket cs tidy.2,
  )
]

-- Connecting a new socket and disconnecting it again leaves every user with the sockets there were.
pub disconnect-connect :
    (v user socket : ℕ) (cs : Connections)
    → IsTidy cs
    → Misses socket (open_sockets user cs)
    → open_sockets v (disconnect user socket (connect user socket cs)) ≡ open_sockets v cs
disconnect-connect v user socket cs tidy fresh = ground (
  arith,
  open-disconnect v user socket (connect user socket cs) (connect-IsTidy user socket cs tidy),
  open-connect v user socket cs,
  open-connect user user socket cs,
  discard-add socket (open_sockets user cs) fresh,
  ==_iff v user,
  ==_refl user,
)
