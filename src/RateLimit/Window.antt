-- ===== src/RateLimit/Window.antt =====
-- How many calls of one client the limiter lets through in one window.
use Prim.Native.Nat.{min}
use package.text.Mathlib.TextPositions.{eq_refl}
use fastapi_auth_api.Base.{
  ℕ, suc, ◌+◌, ◌-◌, ◌*◌, ◌<◌, ◌≡◌, ◌≢◌, String, true, false, none, some, List, [], ◌∷◌, arith,
  if◌then◌else◌, ltb, eq_iff, length, All,
}
use fastapi_auth_api.Services.Redis.{second, integer, live, count_of, Redis}
use fastapi_auth_api.RateLimit.{RateLimiter, admit}

module _ (r : Redis) (rl : RateLimiter) (key : String) where
  -- The number of calls let through, of calls at these instants, one after the other.
  pub admitted : List ℕ → r.State → ℕ
  admitted [] s = 0
  admitted (now ∷ later) s =
      let (passed, s') = admit r rl now key s in
      let rest = admitted later s' in if passed then suc rest else rest

  -- The counter of the key stands at `n` until `deadline`.
  abbrev Counts : ℕ → ℕ → r.State → Type 0
  Counts n deadline s = r.peek key s ≡ some (record { value = integer n; deadline = some deadline })

  admit_first :
      (now : ℕ) (s : r.State)
      → live now (r.peek key s) ≡ none
      → ((admit r rl now key s).0 ≡ (if ltb rl.times 1 then false else true))
        × Counts 1 (now + rl.seconds * second) (admit r rl now key s).1
  unfolding admit
  admit_first now s absent =
      let zero : count_of (live now (r.peek key s)) ≡ some 0 = rw absent in
      (
        ground (arith, r.incr_count key now 0 s zero),
        ground (
          arith,
          absent,
          eq_refl key,
          r.incr_count key now 0 s zero,
          r.peek-incr key key now 0 s zero,
          r.peek-expire key key rl.seconds now (r.incr key now s).1,
        ),
      )

  admit_next :
      (now n deadline : ℕ) (s : r.State)
      → now < deadline
      → Counts (suc n) deadline s
      → ((admit r rl now key s).0 ≡ (if ltb rl.times (suc (suc n)) then false else true))
        × Counts (suc (suc n)) deadline (admit r rl now key s).1
  unfolding admit
  admit_next now n deadline s early counted =
      let entry : live now (r.peek key s) ≡ r.peek key s = ground (arith, counted) in
      let alive : count_of (live now (r.peek key s)) ≡ some (suc n) =
        ground (arith, counted, entry) in
      (
        ground (arith, r.incr_count key now (suc n) s alive),
        ground (
          arith,
          counted,
          entry,
          eq_refl key,
          r.incr_count key now (suc n) s alive,
          r.peek-incr key key now (suc n) s alive,
        ),
      )

  admitted_next :
      (n deadline : ℕ) (times : List ℕ) (s : r.State)
      → All (λ t. t < deadline) times
      → Counts (suc n) deadline s
      → admitted times s ≡ min (length times) (rl.times - suc n)
  unfolding admitted
  admitted_next n deadline [] s early counted = omega arith
  admitted_next n deadline (now ∷ later) s early counted =
      let (passed, counted') = admit_next now n deadline s early.0 counted in
      let ih = admitted_next (suc n) deadline later (admit r rl now key s).1 early.1 counted' in
      ground (arith, passed, ih)

  -- A window opens with a call while no counter of the client is alive. Of that call and any calls
  -- before the window ends, exactly the first `times` are let through.
  pub admitted_window :
      (now : ℕ) (later : List ℕ) (s : r.State)
      → live now (r.peek key s) ≡ none
      → All (λ t. t < now + rl.seconds * second) later
      → admitted (now ∷ later) s ≡ min (suc (length later)) rl.times
  unfolding admitted
  admitted_window now later s absent early =
      let (passed, counted) = admit_first now s absent in
      let ih =
        admitted_next 0 (now + rl.seconds * second) later (admit r rl now key s).1 early counted in
      ground (arith, passed, ih)

-- A call for one key leaves the entry of every other key alone, so clients and routes have budgets
-- of their own.
pub admit_other :
    (r : Redis) (rl : RateLimiter) (now n : ℕ) (key other : String) (s : r.State)
    → other ≢ key
    → count_of (live now (r.peek key s)) ≡ some n
    → r.peek other (admit r rl now key s).1 ≡ r.peek other s
unfolding admit
admit_other r rl now n key other s apart counted = ground (
  arith,
  eq_iff other key,
  r.peek-incr other key now n s counted,
  r.peek-expire other key rl.seconds now (r.incr key now s).1,
)
