-- ===== src/Reports/Counts.antt =====
-- The counts of the report.
use fastapi_auth_api.Base.{
  ℕ, zero, suc, ◌+◌, ◌≡◌, refl, ap, ◌∙◌, String, true, Option, none, some, List, [], ◌∷◌, ◌++◌, map,
  keep, length, arith, inl, inr, Bool-cases, str_eq, eq_iff, if◌then◌else◌,
}
use fastapi_auth_api.Models.{User, Role}
use fastapi_auth_api.Services.{Services, World}
use fastapi_auth_api.Reports.{
  holds_role, role_name_rows, count_one, grouped, generate_user_summary_report,
}

abbrev pub entry : String → List (String × ℕ) → Option ℕ
entry name [] = none
entry name ((n, count) ∷ rest) = if str_eq name n then some count else entry name rest

-- A number of users, where there are any.
abbrev pub if_any : ℕ → Option ℕ
if_any zero = none
if_any (suc n) = some (suc n)

-- How many users hold a role of this name; one who holds two of them counts twice.
abbrev pub holders : String → List Role → List User → ℕ
holders name [] users = 0
holders name (role ∷ roles) users =
    (if str_eq name role.name then length (keep (holds_role role) users) else 0)
    + holders name roles users

abbrev occurrences : String → List String → ℕ
occurrences name [] = 0
occurrences name (n ∷ names) = (if str_eq name n then 1 else 0) + occurrences name names

abbrev one_more : Option ℕ → Option ℕ
one_more none = some 1
one_more (some n) = some (suc n)

entry-count_one :
    (name n : String) (counts : List (String × ℕ))
    → entry name (count_one n counts)
      ≡ (if str_eq name n then one_more (entry name counts) else entry name counts)
entry-count_one name n [] = refl
entry-count_one name n ((m, count) ∷ rest) =
    grind (arith, eq_iff n m, eq_iff name n, eq_iff name m, entry-count_one name n rest)

one_more-if_any : (k : ℕ) → one_more (if_any k) ≡ if_any (suc k)
one_more-if_any zero = refl
one_more-if_any (suc k) = refl

entry-grouped :
    (name : String) (names : List String)
    → entry name (grouped names) ≡ if_any (occurrences name names)
entry-grouped name [] = refl
entry-grouped name (n ∷ names) =
    let known = entry-grouped name names in
    let k = occurrences name names in
    entry-count_one name n (grouped names) ∙ (elim (Bool-cases (str_eq name n)) [
      | inl e ↦ rw (e) (ap one_more known ∙ one_more-if_any k ∙ ap if_any {x = suc k} (omega arith))
      | inr e ↦ rw (e) (known ∙ ap if_any {x = k} (omega arith))
    ])

occurrences-append :
    (name : String) (xs ys : List String)
    → occurrences name (xs ++ ys) ≡ occurrences name xs + occurrences name ys
occurrences-append name [] ys = omega arith
occurrences-append name (x ∷ xs) ys = omega (arith, occurrences-append name xs ys)

occurrences-same :
    (name role : String) (users : List User)
    → occurrences name (map (λ _. role) users) ≡ (if str_eq name role then length users else 0)
occurrences-same name role [] = ground arith
occurrences-same name role (u ∷ users) = ground (arith, occurrences-same name role users)

occurrences-rows :
    (name : String) (roles : List Role) (users : List User)
    → occurrences name (role_name_rows roles users) ≡ holders name roles users
occurrences-rows name [] users = refl
occurrences-rows name (role ∷ roles) users =
    occurrences-append name (map (λ _. role.name) (keep (holds_role role) users))
      (role_name_rows roles users)
    ∙ ground (
      arith,
      occurrences-same name role.name (keep (holds_role role) users),
      occurrences-rows name roles users,
    )

-- The report has an entry for the name of a role that anybody holds, with the number of its
-- holders, and for no other name.
pub users_by_role_entry :
    (sv : Services) (w : World sv) (name : String)
    → entry name (generate_user_summary_report sv w).users_by_role
      ≡ if_any (
          holders name
            (sv.roles.scalars (λ _. true) w.roles)
            (sv.users.scalars (λ _. true) w.users))
unfolding generate_user_summary_report
users_by_role_entry sv w name =
    let roles = sv.roles.scalars (λ _. true) w.roles in
    let users = sv.users.scalars (λ _. true) w.users in
    entry-grouped name (role_name_rows roles users) ∙ ap if_any (occurrences-rows name roles users)
