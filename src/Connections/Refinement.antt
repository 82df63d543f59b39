-- ===== src/Connections/Refinement.antt =====
-- The connection manager against what it keeps track of: which socket of which user is open.
use fastapi_auth_api.Base.{
  ℕ, ◌≡◌, ◌↔◌, refl, sym, subst, ◌∙◌, Bool, true, false, inl, inr, none, some, List, [], ◌∷◌, arith,
  any, Bool-cases, Option-cases, All, ◌==◌, ==_iff, ==_refl, if◌then◌else◌, Option,
}
use fastapi_auth_api.Connections.{
  Connections, lookup, add, discard, replace, pop, connect, disconnect, after_discard, sockets_of,
  is_filled, is_connected_locally,
}
use fastapi_auth_api.Connections.Sets.{
  Misses, IsTidy, open_sockets, open-connect, open-disconnect, connect-IsTidy,
}

-- A set of sockets as a list: no socket stands twice.
abbrev pub IsSetList : List ℕ → Type 0
IsSetList [] = Unit
IsSetList (s ∷ ss) = Misses s ss × IsSetList ss

abbrev pub holds : ℕ → List ℕ → Bool
holds s ss = any (λ x. s == x) ss

-- What is promised: the sockets that were opened and not closed since, by user.
abbrev pub OpenSockets : Type 0
OpenSockets = ℕ → ℕ → Bool

abbrev pub opened : ℕ → ℕ → OpenSockets → OpenSockets
opened user socket f u s = if u == user then (if s == socket then true else f u s) else f u s

abbrev pub closed : ℕ → ℕ → OpenSockets → OpenSockets
closed user socket f u s = if u == user then (if s == socket then false else f u s) else f u s

pub data Event : Type 0 where
  opening closing : ℕ → ℕ → Event

abbrev pub promised : List Event → OpenSockets → OpenSockets
promised [] f = f
promised (opening user socket ∷ es) f = promised es (opened user socket f)
promised (closing user socket ∷ es) f = promised es (closed user socket f)

unfoldable pub run : List Event → Connections → Connections
run [] cs = cs
run (opening user socket ∷ es) cs = run es (connect user socket cs)
run (closing user socket ∷ es) cs = run es (disconnect user socket cs)

-- The dict has one entry for each user with an open socket, and no other, and the entry is the set
-- of these sockets.
pub record Refines (cs : Connections) (f : OpenSockets) : Type 0 where
  pub tidy : IsTidy cs
  pub sets : (u : ℕ) → IsSetList (open_sockets u cs)
  pub same : (u s : ℕ) → holds s (open_sockets u cs) ≡ f u s

holds-add : (t s : ℕ) (ss : List ℕ) → holds t (add s ss) ≡ (if t == s then true else holds t ss)
holds-add t s [] = ground arith
holds-add t s (x ∷ xs) = ground (arith, holds-add t s xs, ==_iff t s, ==_iff s x, ==_iff t x)

holds-Misses : (s : ℕ) (ss : List ℕ) → Misses s ss → holds s ss ≡ false
holds-Misses s [] m = refl
holds-Misses s (x ∷ xs) m = ground (arith, holds-Misses s xs m.1, m.0)

holds-discard :
    (t s : ℕ) (ss : List ℕ)
    → IsSetList ss
    → holds t (discard s ss) ≡ (if t == s then false else holds t ss)
holds-discard t s [] d = ground arith
holds-discard t s (x ∷ xs) d =
    ground
      (arith, holds-discard t s xs d.1, holds-Misses x xs d.0, ==_iff t s, ==_iff s x, ==_iff t x)

Misses-add : (t s : ℕ) (ss : List ℕ) → (t == s) ≡ false → Misses t ss → Misses t (add s ss)
Misses-add t s [] e m = (e, tt)
Misses-add t s (x ∷ xs) e m = ground (arith, Misses-add t s xs e m.1)

IsSetList-add : (s : ℕ) (ss : List ℕ) → IsSetList ss → IsSetList (add s ss)
IsSetList-add s [] d = (tt, tt)
IsSetList-add s (x ∷ xs) d = elim (Bool-cases (s == x)) [
  | inl e ↦ rw e d
  | inr e ↦
      rw e (Misses-add x s xs (ground (arith, ==_iff s x, ==_iff x s)) d.0, IsSetList-add s xs d.1)
]

Misses-discard : (t s : ℕ) (ss : List ℕ) → Misses t ss → Misses t (discard s ss)
Misses-discard t s [] m = tt
Misses-discard t s (x ∷ xs) m = ground (arith, Misses-discard t s xs m.1)

IsSetList-discard : (s : ℕ) (ss : List ℕ) → IsSetList ss → IsSetList (discard s ss)
IsSetList-discard s [] d = tt
IsSetList-discard s (x ∷ xs) d = elim (Bool-cases (s == x)) [
  | inl e ↦ rw e d.1
  | inr e ↦ rw e (Misses-discard x s xs d.0, IsSetList-discard s xs d.1)
]

absent-replace :
    (x u : ℕ) (ss : List ℕ) (cs : Connections)
    → All (λ c. (x == c.0) ≡ false) cs
    → All (λ c. (x == c.0) ≡ false) (replace u ss cs)
absent-replace x u ss [] a = tt
absent-replace x u ss ((y, ys) ∷ cs) a = ground (arith, absent-replace x u ss cs a.1, a.0)

absent-pop :
    (x u : ℕ) (cs : Connections)
    → All (λ c. (x == c.0) ≡ false) cs
    → All (λ c. (x == c.0) ≡ false) (pop u cs)
absent-pop x u [] a = tt
absent-pop x u ((y, ys) ∷ cs) a = ground (arith, absent-pop x u cs a.1, a.0)

replace-IsTidy :
    (u s : ℕ) (ss : List ℕ) (cs : Connections) → IsTidy cs → IsTidy (replace u (s ∷ ss) cs)
replace-IsTidy u s ss [] t = tt
replace-IsTidy u s ss ((x, xs) ∷ cs) t = elim (Bool-cases (u == x)) [
  | inl e ↦ rw e (t.0, refl, t.2)
  | inr e ↦ rw e (absent-replace x u (s ∷ ss) cs t.0, t.1, replace-IsTidy u s ss cs t.2)
]

pop-IsTidy : (u : ℕ) (cs : Connections) → IsTidy cs → IsTidy (pop u cs)
pop-IsTidy u [] t = tt
pop-IsTidy u ((x, xs) ∷ cs) t = elim (Bool-cases (u == x)) [
  | inl e ↦ rw e t.2
  | inr e ↦ rw e (absent-pop x u cs t.0, t.1, pop-IsTidy u cs t.2)
]

after_discard-IsTidy :
    (u : ℕ) (left : List ℕ) (cs : Connections) → IsTidy cs → IsTidy (after_discard u left cs)
after_discard-IsTidy u [] cs t = pop-IsTidy u cs t
after_discard-IsTidy u (s ∷ ss) cs t = replace-IsTidy u s ss cs t

disconnect_found :
    (u s : ℕ) (ss : List ℕ) (cs : Connections)
    → lookup u cs ≡ some ss
    → disconnect u s cs ≡ after_discard u (discard s ss) cs
unfolding disconnect
disconnect_found u s ss cs e = rw (e, disconnect) refl

disconnect-none : (u s : ℕ) (cs : Connections) → lookup u cs ≡ none → disconnect u s cs ≡ cs
unfolding disconnect
disconnect-none u s cs e = rw (e, disconnect) refl

disconnect-IsTidy : (u s : ℕ) (cs : Connections) → IsTidy cs → IsTidy (disconnect u s cs)
disconnect-IsTidy u s cs t = elim (Option-cases (lookup u cs)) [
  | inl e ↦ subst IsTidy (sym (disconnect-none u s cs e)) t
  | inr (ss, e) ↦
      subst IsTidy (sym (disconnect_found u s ss cs e)) (after_discard-IsTidy u (discard s ss) cs t)
]

IsSetList-if :
    (b : Bool) (xs ys : List ℕ) → IsSetList xs → IsSetList ys → IsSetList (if b then xs else ys)
IsSetList-if true xs ys a b = a
IsSetList-if false xs ys a b = b

Refines-connect :
    (user socket : ℕ) {cs : Connections} {f : OpenSockets}
    → Refines cs f
    → Refines (connect user socket cs) (opened user socket f)
Refines-connect user socket {cs} {f} r = record {
  tidy = connect-IsTidy user socket cs r.tidy;
  sets = λ u. subst IsSetList (sym (open-connect u user socket cs)) (
      IsSetList-if (u == user) (add socket (open_sockets user cs)) (open_sockets u cs)
        (IsSetList-add socket (open_sockets user cs) (r.sets user)) (r.sets u));
  same = λ u s. ground (
    arith,
    open-connect u user socket cs,
    holds-add s socket (open_sockets user cs),
    r.same u s,
    r.same user s,
    ==_iff u user,
  );
}

Refines-disconnect :
    (user socket : ℕ) {cs : Connections} {f : OpenSockets}
    → Refines cs f
    → Refines (disconnect user socket cs) (closed user socket f)
Refines-disconnect user socket {cs} {f} r = record {
  tidy = disconnect-IsTidy user socket cs r.tidy;
  sets = λ u. subst IsSetList (sym (open-disconnect u user socket cs r.tidy)) (
      IsSetList-if (u == user) (discard socket (open_sockets user cs)) (open_sockets u cs)
        (IsSetList-discard socket (open_sockets user cs) (r.sets user)) (r.sets u));
  same = λ u s. ground (
    arith,
    open-disconnect u user socket cs r.tidy,
    holds-discard s socket (open_sockets user cs) (r.sets user),
    r.same u s,
    r.same user s,
    ==_iff u user,
  );
}

run-Refines :
    (es : List Event) (cs : Connections) (f : OpenSockets)
    → Refines cs f
    → Refines (run es cs) (promised es f)
unfolding run
run-Refines [] cs f r = r
run-Refines (opening user socket ∷ es) cs f r =
    run-Refines es (connect user socket cs) (opened user socket f) (Refines-connect user socket r)
run-Refines (closing user socket ∷ es) cs f r =
    run-Refines es (disconnect user socket cs) (closed user socket f)
      (Refines-disconnect user socket r)

empty-Refines : Refines [] (λ u s. false)
empty-Refines = record { tidy = tt; sets = λ u. tt; same = λ u s. refl }

filled_holds :
    (o : Option (List ℕ)) → is_filled o ≡ true → (s : ℕ) × (holds s (sockets_of o) ≡ true)
filled_holds none h = absurd (ground arith)
filled_holds (some []) h = absurd (ground arith)
filled_holds (some (s ∷ ss)) h = (s, rw (==_refl s) refl)

holds_filled : (o : Option (List ℕ)) (s : ℕ) → holds s (sockets_of o) ≡ true → is_filled o ≡ true
holds_filled none s h = absurd (ground arith)
holds_filled (some []) s h = absurd (ground arith)
holds_filled (some (x ∷ xs)) s h = refl

-- After any connects and disconnects from the start on, the dict has one entry for each user with
-- an open socket and no other; the entry is the set of the sockets of the user that were
-- connected and not disconnected since; and a user counts as connected exactly when there is
-- such a socket.
pub connections_refine :
    (es : List Event) (u : ℕ)
    → Refines (run es []) (promised es (λ v s. false))
      × ((is_connected_locally u (run es []) ≡ true)
          ↔ ((s : ℕ) × (promised es (λ v t. false) u s ≡ true)))
unfolding is_connected_locally
connections_refine es u =
    let r = run-Refines es [] (λ v s. false) empty-Refines in
    let entry = lookup u (run es []) in
    (
      r,
      (
        λ h. let (s, there) = filled_holds entry h in (s, sym (r.same u s) ∙ there),
        λ (s, there). holds_filled entry s (r.same u s ∙ there),
      ),
    )
