-- ===== src/Rbac/Seeded/Names.antt =====
-- Names of permissions: those that are missing, and those that are picked.
use mathlib.Core.Option
use fastapi_auth_api.Base.{
  ◌≡◌, refl, String, true, inl, inr, some, List, [], ◌∷◌, ◌++◌, contains, eq_iff, All, arith,
  Bool-cases,
}
use fastapi_auth_api.Models.{Permission}
use fastapi_auth_api.Rbac.Seeding.{lookup, names_of, missing, pick}

-- `permissions_by_name` has a permission of that name.
abbrev pub Knows : List (String × Permission) → String → Type 0
Knows known name = (p : Permission) × (lookup name known ≡ some p) × (p.name ≡ name)

pub contains-names_of_append :
    (name : String) (xs ys : List Permission)
    → contains name (names_of xs) ≡ true
    → contains name (names_of (xs ++ ys)) ≡ true
contains-names_of_append name [] ys h = absurd (ground arith)
contains-names_of_append name (x ∷ xs) ys h = ground (arith, contains-names_of_append name xs ys)

contains-names_of_later :
    (name : String) (xs ys : List Permission)
    → contains name (names_of ys) ≡ true
    → contains name (names_of (xs ++ ys)) ≡ true
contains-names_of_later name [] ys h = h
contains-names_of_later name (x ∷ xs) ys h = ground (arith, contains-names_of_later name xs ys h)

-- All these names are picked, in this order.
pub pick_known :
    (names : List String) (known : List (String × Permission))
    → All (Knows known) names
    → (ps : List Permission) × (pick names known ≡ some ps) × (names_of ps ≡ names)
unfolding Option.bind
pick_known [] known all = ([], refl, refl)
pick_known (name ∷ names) known ((p, found, same), all) =
    let (ps, picked, named) = pick_known names known all in
    (p ∷ ps, ground (arith, found, picked), ground (arith, same, named))

pub All-missing :
    (P : String → Type 0) (wanted : List String) (current : List Permission)
    → All P wanted
    → All P (missing wanted current)
All-missing P [] current all = tt
All-missing P (name ∷ wanted) current (p, all) =
    elim (Bool-cases (contains name (names_of current))) [
      | inl e ↦ rw e (All-missing P wanted current all)
      | inr e ↦ rw e (p, All-missing P wanted current all)
    ]

-- The permissions have all these names.
abbrev pub Covers : List Permission → List String → Type 0
Covers permissions wanted = All (λ name. contains name (names_of permissions) ≡ true) wanted

pub missing-Covers :
    (wanted : List String) (current : List Permission)
    → Covers current wanted
    → missing wanted current ≡ []
missing-Covers [] current all = refl
missing-Covers (name ∷ wanted) current (h, all) = rw h (missing-Covers wanted current all)

in_front :
    (names : List String) (name : String) (ns : List String)
    → names ≡ name ∷ ns
    → contains name names ≡ true
in_front names name ns e = rw e (rw ((eq_iff name name).1 refl) refl)

contains_later :
    (names : List String) (x name : String) (ns : List String)
    → names ≡ x ∷ ns
    → contains name ns ≡ true
    → contains name names ≡ true
contains_later names x name ns e h = rw e (ground (arith, h))

-- With what was missing appended, all the names are there.
appended-Covers_from :
    (wanted all : List String) (current ps : List Permission)
    → ((name : String)
        → contains name (missing wanted current) ≡ true
        → contains name (names_of ps) ≡ true)
    → Covers (current ++ ps) wanted
appended-Covers_from [] all current ps h = tt
appended-Covers_from (name ∷ wanted) all current ps h =
    elim (Bool-cases (contains name (names_of current))) [
      | inl e ↦ (
        contains-names_of_append name current ps e,
        appended-Covers_from wanted all current ps (λ n g. h n (rw e g)),
      )
      | inr e ↦ (
        contains-names_of_later name current ps (
            h name (
              in_front (missing (name ∷ wanted) current) name (missing wanted current)
                (rw e refl))),
        appended-Covers_from wanted all current ps (λ n g. h n (
            contains_later (missing (name ∷ wanted) current) name n (missing wanted current)
              (rw e refl) g)),
      )
    ]

pub appended-Covers :
    (wanted : List String) (current ps : List Permission)
    → names_of ps ≡ missing wanted current
    → Covers (current ++ ps) wanted
appended-Covers wanted current ps e =
    appended-Covers_from wanted wanted current ps (λ name h. rw e h)

pub Covers-more :
    (wanted : List String) (old new : List Permission)
    → ((name : String) → contains name (names_of old) ≡ true → contains name (names_of new) ≡ true)
    → Covers old wanted
    → Covers new wanted
Covers-more [] old new more all = tt
Covers-more (name ∷ wanted) old new more (h, all) =
    (more name h, Covers-more wanted old new more all)
