-- ===== src/Http.antt =====
-- The way out of a request handler: a value or an `HTTPException`, beside the state as it then is.
pub mod Rules
use fastapi_auth_api.Base.{ℕ, String, Bool, true, false, Option, none, some, List, []}

-- `HTTPException(status_code, detail, headers)`
pub record HttpException : Type 0 where
  pub status_code : ℕ
  pub detail : String
  pub headers : List (String × String)

pub data Result (A : Type 0) : Type 0 where
  ok : A → Result A
  err : HttpException → Result A

abbrev pub http : ℕ → String → HttpException
http code detail = record { status_code = code; detail = detail; headers = [] }

-- The answer to any other exception, by `handle_unhandled_exception` of app/core/exceptions.py.
abbrev pub server_error : HttpException
server_error = http 500 "Internal Server Error"

-- What was committed before a raise stays committed.
abbrev pub Action : Type 0 → Type 0 → Type 0
Action S A = S → Result A × S

module _ {S A : Type 0} where
  abbrev pub pure : A → Action S A
  pure a s = (ok a, s)

  abbrev pub raise : HttpException → Action S A
  raise e s = (err e, s)

  abbrev pub gets : (S → A) → Action S A
  gets f s = (ok (f s), s)

  abbrev pub or_raise : Option A → HttpException → Action S A
  or_raise none e s = (err e, s)
  or_raise (some a) e s = (ok a, s)

module _ {S : Type 0} where
  abbrev pub modify : (S → S) → Action S (Unit {0})
  modify f s = (ok tt, f s)

  -- `if test: raise e`
  abbrev pub raise_if : Bool → HttpException → Action S (Unit {0})
  raise_if true e s = (err e, s)
  raise_if false e s = (ok tt, s)

infixl 5 ◌>>=◌ ◌>>◌
abbrev pub ◌>>=◌ : {S A B : Type 0} → Action S A → (A → Action S B) → Action S B
◌>>=◌ m f s = let (r, s') = m s in elim r [ ok a ↦ f a s' | err e ↦ (err e, s') ]

abbrev pub ◌>>◌ : {S B : Type 0} → Action S (Unit {0}) → Action S B → Action S B
m >> k = m >>= λ _. k

-- What is said of an exception, where the call ends in one; and of a value, where it returns one.
abbrev pub Refuses : {A : Type 0} → (HttpException → Type 0) → Result A → Type 0
Refuses P (ok a) = Unit
Refuses P (err e) = P e

abbrev pub Returns : {S A : Type 0} → (A → Type 0) → Result A × S → Type 0
Returns P (ok a, s) = P a
Returns P (err e, s) = ⊥
