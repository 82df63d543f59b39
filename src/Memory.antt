-- ===== src/Memory.antt =====
-- Services kept in memory: concrete functions that meet what the interfaces of Services/ ask.
pub mod Json
pub mod Rows
pub mod Sorting
pub mod Starlette
pub mod Tables
pub mod Text
use fastapi_auth_api.Base.{
  ℕ, suc, ◌+◌, ◌*◌, ◌/◌, ◌≡◌, refl, ap, String, Bool, false, Option, none, some, arith,
  if◌then◌else◌, ltb, is_some, str_eq, eq_iff, ℤ, pos,
}
use mathlib.Core.Option
use package.text.Mathlib.TextPositions.{eq_refl}
use fastapi_auth_api.Services.{Services}
use fastapi_auth_api.Services.Redis.{
  second, text, integer, Entry, live, count_of, text_of, deadline_of, set_deadline, Redis,
}
use fastapi_auth_api.Services.Jwt.{Payload, reread, Jwt}
use fastapi_auth_api.Services.Runtime.{Passwords, Runtime}
use Tables.{memory_table}
use Text.{unary, unary-injective, size, size-unary, lower, lower_idem}

abbrev pub memory_jwt : Jwt
memory_jwt = record {
  Token = Payload;
  encode = λ p. p;
  decode = λ now p. if ltb (p.exp / second) (now / second) then none else some (reread p);
  decode-encode = λ now p. refl;
}

abbrev pub memory_passwords : Passwords
memory_passwords = record {
  hash = λ salt password. password;
  verify = str_eq;
  verify-hash = λ salt password. eq_refl password;
}

abbrev pub memory_runtime : Runtime
memory_runtime = record {
  uuid4 = unary;
  uuid4_injective = unary-injective;
  lower = lower;
  lower_idem = lower_idem;
  upper = λ s. s;
  strip = λ s. s;
  str = unary;
  int = λ s. some (pos (size s));
  int-str = λ n. ap (λ k. some (pos k)) (size-unary n);
}

abbrev pub Store : Type 0
Store = String → Option Entry

abbrev pub put : String → Option Entry → Store → Store
put k e s j = if str_eq j k then e else s j

abbrev pub increment : String → Option Entry → Option ℕ → Store → ℕ × Store
increment k old none s = (0, s)
increment k old (some n) s =
    (suc n, put k (some (record { value = integer (suc n); deadline = deadline_of old })) s)

pub increment_count :
    (k : String) (old : Option Entry) (c : Option ℕ) (n : ℕ) (s : Store)
    → c ≡ some n
    → (increment k old c s).0 ≡ suc n
increment_count k old none n s h = ground arith
increment_count k old (some m) n s h = ground arith

pub peek-increment :
    (j k : String) (old : Option Entry) (c : Option ℕ) (n : ℕ) (s : Store)
    → c ≡ some n
    → (increment k old c s).1 j ≡ (
        if str_eq j k
        then some (record { value = integer (suc n); deadline = deadline_of old })
        else s j)
peek-increment j k old none n s h = ground arith
peek-increment j k old (some m) n s h = ground arith

pub peek-increment_other :
    (j k : String) (old : Option Entry) (c : Option ℕ) (s : Store)
    → str_eq j k ≡ false
    → (increment k old c s).1 j ≡ s j
peek-increment_other j k old none s h = refl
peek-increment_other j k old (some m) s h = ground arith

abbrev pub memory_redis : Redis
memory_redis = record {
  State = Store;
  peek = λ k s. s k;
  exists = λ k now s. is_some (live now (s k));
  get = λ k now s. text_of (live now (s k));
  set = λ k v ex now. put k (some (record { value = text v; deadline = some (now + ex * second) }));
  delete = λ k. put k none;
  incr = λ k now s. increment k (live now (s k)) (count_of (live now (s k))) s;
  expire = λ k ex now s. put k (Option.map (set_deadline (now + ex * second)) (live now (s k))) s;
  exists_lem = λ k now s. refl;
  get_lem = λ k now s. refl;
  peek-set = λ j k v ex now s. refl;
  peek-delete = λ j k s. refl;
  incr_count = λ k now n s. increment_count k (live now (s k)) (count_of (live now (s k))) n s;
  peek-incr = λ j k now n s. peek-increment j k (live now (s k)) (count_of (live now (s k))) n s;
  peek-incr_other =
      λ j k now s. peek-increment_other j k (live now (s k)) (count_of (live now (s k))) s;
  peek-expire = λ j k ex now s. refl;
}

abbrev pub memory : Services
memory = record {
  jwt = memory_jwt;
  passwords = memory_passwords;
  runtime = memory_runtime;
  redis = memory_redis;
  users = memory_table (λ u. u.id);
  roles = memory_table (λ r. r.id);
  links = memory_table (λ a. a.id);
  files = memory_table (λ f. f.id);
  access_token_expire_minutes = 30;
  refresh_token_expire_days = 7;
}
