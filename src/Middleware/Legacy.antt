-- ===== src/Middleware/Legacy.antt =====
-- The paths of before the versions.
use Prim.Native.Char.{Char}
use Prim.Native.String.{◌++◌ as ◌&◌}
use text.Mathlib.TextLemmas.{nil-append, cons-append}
use text.Mathlib.TextPositions.{eq_refl}
use fastapi_auth_api.Base.{
  ◌≡◌, refl, sym, ap, ◌∙◌, subst, String, Bool, true, ◌||◌, ◌⊎◌, inl, inr, List, [], ◌∷◌, any,
  arith, str_eq, eq_iff, starts_with, Bool-cases,
}
use fastapi_auth_api.Services.Table.{Occurs}
use fastapi_auth_api.Middleware.{is_legacy_path, legacy_prefixes}

single : (c : Char) (s : String) → String.◌∷◌ c s ≡ (String.◌∷◌ c String.[]) & s
single c s = sym (cons-append c String.[] s ∙ ap (λ t. String.◌∷◌ c t) (nil-append s))

starts_with-append : (p rest : String) → starts_with p (p & rest) ≡ true
starts_with-append String.[] rest = refl
starts_with-append (String.◌∷◌ c p) rest =
    rw (cons-append, eq_refl (String.◌∷◌ c String.[])) (starts_with-append p rest)

rest_of : (p s : String) → starts_with p s ≡ true → (rest : String) × (s ≡ p & rest)
rest_of String.[] s h = (s, sym (nil-append s))
rest_of (String.◌∷◌ c p) String.[] h = absurd (ground arith)
rest_of (String.◌∷◌ c p) (String.◌∷◌ d s) h =
    elim (Bool-cases (str_eq (String.◌∷◌ c String.[]) (String.◌∷◌ d String.[]))) [
      | inr e ↦ absurd (ground (arith, e, h))
      | inl e ↦
          let (rest, same) = rest_of p s (ground (arith, e, h)) in
          (
            rest,
            single d s
                ∙ ap (λ x. x & s)
                    (sym ((eq_iff (String.◌∷◌ c String.[]) (String.◌∷◌ d String.[])).0 e))
                ∙ sym (single c s)
                ∙ ap (λ x. String.◌∷◌ c x) same
                ∙ sym (cons-append c p rest),
          )
    ]

any-member :
    (p : String → Bool) (xs : List String)
    → any p xs ≡ true
    → (x : String) × Occurs x xs × (p x ≡ true)
any-member p [] h = absurd (ground arith)
any-member p (x ∷ xs) h = elim (Bool-cases (p x)) [
  | inl e ↦ (x, inl refl, e)
  | inr e ↦ let (y, among, fits) = any-member p xs (ground (arith, e, h)) in (y, inr among, fits)
]

member-any :
    (p : String → Bool) (x : String) (xs : List String) → Occurs x xs → p x ≡ true → any p xs ≡ true
member-any p x [] o h = absurd o
member-any p x (y ∷ xs) (inl e) h = rw (sym (ap p e) ∙ h) refl
member-any p x (y ∷ xs) (inr o) h = ground (arith, member-any p x xs o h)

-- One of the five prefixes, or a path below one of them.
abbrev pub IsLegacy : String → Type 0
IsLegacy path =
    (prefix : String) × Occurs prefix ("/auth" ∷ "/users" ∷ "/admin" ∷ "/files" ∷ "/ws" ∷ [])
    × ((path ≡ prefix) ⊎ ((rest : String) × (path ≡ (prefix & "/") & rest)))

pub is_legacy_path-IsLegacy : (path : String) → is_legacy_path path ≡ true → IsLegacy path
unfolding is_legacy_path
is_legacy_path-IsLegacy path h =
    let (prefix, among, fits) =
      any-member (λ prefix. str_eq path prefix || starts_with (prefix & "/") path) legacy_prefixes
        h in
    (
      prefix,
      among,
      elim (Bool-cases (str_eq path prefix)) [
        | inl e ↦ inl ((eq_iff path prefix).0 e)
        | inr e ↦ inr (rest_of (prefix & "/") path (ground (arith, e, fits)))
      ],
    )

pub IsLegacy-is_legacy_path : (path : String) → IsLegacy path → is_legacy_path path ≡ true
unfolding is_legacy_path
IsLegacy-is_legacy_path path (prefix, among, inl same) =
    member-any (λ prefix. str_eq path prefix || starts_with (prefix & "/") path) prefix
      legacy_prefixes among (ground (arith, (eq_iff path prefix).1 same))
IsLegacy-is_legacy_path path (prefix, among, inr (rest, same)) =
    let below : starts_with (prefix & "/") path ≡ true =
      subst (λ x. starts_with (prefix & "/") x ≡ true) (sym same)
        (starts_with-append (prefix & "/") rest) in
    member-any (λ prefix. str_eq path prefix || starts_with (prefix & "/") path) prefix
      legacy_prefixes among (ground (arith, below))
