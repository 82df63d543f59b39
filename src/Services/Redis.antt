-- ===== src/Services/Redis.antt =====
-- Redis, as app/core/redis_client.py hands it to the services: the commands that they send and
-- what the Redis manual says of them. Times are microseconds, a time to live is in seconds.
use fastapi_auth_api.Base.{
  ℕ, suc, ◌+◌, ◌*◌, ◌≡◌, String, Bool, Option, none, some, if◌then◌else◌, ltb, is_some, str_eq,
  false,
}
use mathlib.Core.Option

abbrev pub second : ℕ
second = 1000000

pub data RedisValue : Type 0 where
  text : String → RedisValue
  integer : ℕ → RedisValue

pub record Entry : Type 0 where
  pub value : RedisValue
  pub deadline : Option ℕ

-- The value of a key at an instant; an entry is gone from its deadline on.
abbrev pub live_entry : ℕ → Entry → Option ℕ → Option Entry
live_entry now e none = some e
live_entry now e (some d) = if ltb now d then some e else none

abbrev pub live : ℕ → Option Entry → Option Entry
live now none = none
live now (some e) = live_entry now e e.deadline

-- What INCR counts from; it is an error on a text.
abbrev pub count_of : Option Entry → Option ℕ
count_of none = some 0
count_of (some e) = elim e.value [ integer n ↦ some n | text _ ↦ none ]

abbrev pub text_of : Option Entry → Option String
text_of none = none
text_of (some e) = elim e.value [ integer _ ↦ none | text v ↦ some v ]

abbrev pub deadline_of : Option Entry → Option ℕ
deadline_of none = none
deadline_of (some e) = e.deadline

abbrev pub set_deadline : ℕ → Entry → Entry
set_deadline d e = record e { deadline = some d }

-- `peek` shows the entry stored under a key, past its deadline or not.
pub record Redis : Type 1 where
  pub State : Type 0
  pub peek : String → State → Option Entry
  pub exists : String → ℕ → State → Bool
  pub get : String → ℕ → State → Option String
  pub set : String → String → ℕ → ℕ → State → State
  pub delete : String → State → State
  pub incr : String → ℕ → State → ℕ × State
  pub expire : String → ℕ → ℕ → State → State
  pub exists_lem :
      (k : String) (now : ℕ) (s : State) → exists k now s ≡ is_some (live now (peek k s))
  pub get_lem : (k : String) (now : ℕ) (s : State) → get k now s ≡ text_of (live now (peek k s))
  pub peek-set :
      (j k v : String) (ex now : ℕ) (s : State)
      → peek j (set k v ex now s) ≡ (
          if str_eq j k
          then some (record { value = text v; deadline = some (now + ex * second) })
          else peek j s)
  pub peek-delete :
      (j k : String) (s : State) → peek j (delete k s) ≡ (if str_eq j k then none else peek j s)
  pub incr_count :
      (k : String) (now n : ℕ) (s : State)
      → count_of (live now (peek k s)) ≡ some n
      → (incr k now s).0 ≡ suc n
  pub peek-incr :
      (j k : String) (now n : ℕ) (s : State)
      → count_of (live now (peek k s)) ≡ some n
      → peek j (incr k now s).1 ≡ (
          if str_eq j k
          then some
              (record { value = integer (suc n); deadline = deadline_of (live now (peek k s)) })
          else peek j s)
  pub peek-incr_other :
      (j k : String) (now : ℕ) (s : State) → str_eq j k ≡ false → peek j (incr k now s).1 ≡ peek j s
  pub peek-expire :
      (j k : String) (ex now : ℕ) (s : State)
      → peek j (expire k ex now s) ≡ (
          if str_eq j k
          then Option.map (set_deadline (now + ex * second)) (live now (peek k s))
          else peek j s)
