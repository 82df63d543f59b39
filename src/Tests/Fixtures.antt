-- ===== src/Tests/Fixtures.antt =====
-- States over the services in memory.
use fastapi_auth_api.Base.{ℕ, ◌≡◌, refl, subst, true, none, some, [], ◌∷◌, arith}
use fastapi_auth_api.Models.{User}
use fastapi_auth_api.Services.{World}
use fastapi_auth_api.Services.Jwt.{Payload}
use fastapi_auth_api.Memory.{memory}
use fastapi_auth_api.Accounts.{IsConsistent}

abbrev pub jane : User
jane = record {
  id = 1;
  email = "jane@x.org";
  hashed_password = some "Secret123";
  is_active = true;
  is_verified = true;
  created_at = 0;
  roles = [];
}

abbrev pub empty : World memory
empty = record {
  users = ([], tt);
  roles = ([], tt);
  links = ([], tt);
  files = ([], tt);
  redis = λ k. none;
  draws = 0;
  tasks = [];
  connections = [];
  sent = [];
  published = [];
}

abbrev pub with_jane : World memory
with_jane = record empty { users = (jane ∷ [], (tt, tt)) }

pub empty-IsConsistent : IsConsistent memory empty.users
empty-IsConsistent = record {
  unique = λ i j u v p. absurd (ground arith);
  lowered = λ i u p. absurd (ground arith);
}

found_jane : (i : ℕ) (u : User) → memory.users.get i with_jane.users ≡ some u → jane ≡ u
found_jane i u p = ground arith

pub with_jane-IsConsistent : IsConsistent memory with_jane.users
with_jane-IsConsistent = record {
  unique = λ i j u v p q e. ground arith;
  lowered = λ i u p. subst (λ x. memory.runtime.lower x.email ≡ x.email) (found_jane i u p) refl;
}

-- One hour after the epoch.
abbrev pub noon : ℕ
noon = 3600000000

-- An access and a refresh token of one session, expiring at 1:30 and after seven days.
abbrev pub access_payload : Payload
access_payload = record {
  sub = "jane@x.org";
  type = "access";
  jti = "a";
  iat = noon;
  exp = 5400000000;
}

abbrev pub refresh_payload : Payload
refresh_payload = record {
  sub = "jane@x.org";
  type = "refresh";
  jti = "b";
  iat = noon;
  exp = 608400000000;
}

abbrev pub reset_payload : Payload
reset_payload = record {
  sub = "1";
  type = "password_reset";
  jti = "c";
  iat = noon;
  exp = 4500000000;
}
