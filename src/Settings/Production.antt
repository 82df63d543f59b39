-- ===== src/Settings/Production.antt =====
-- What holds of settings that load, in production.
use Prim.Native.String.{◌++◌ as ◌&◌}
use Prim.Native.String as Text
use Prim.Native.String.append
use mathlib.Core.Option
use fastapi_auth_api.Base.{
  ◌≤◌, ◌≡◌, refl, sym, subst, ap, ◌∙◌, String, Bool, true, false, not, ◌&&◌, inl, inr, Option, none,
  some, List, [], ◌∷◌, keep, contains, str_eq, eq_iff, ltb, if◌then◌else◌, starts_with,
  after_prefix, len, arith, Bool-cases, Option-cases,
}
use fastapi_auth_api.Services.Runtime.{Runtime}
use fastapi_auth_api.Settings.{
  Settings, Variables, Given, Environment, production, insecure_secret_keys, normalize_database_url,
  is_production, split_comma_separated, list_or, checked_log_level, is_insecure, settings_of,
  load_settings,
}

after_prefix-none : (p s : String) → after_prefix p s ≡ none → starts_with p s ≡ false
after_prefix-none Text.[] s h = absurd (ground arith)
after_prefix-none (Text.◌∷◌ c p) Text.[] h = refl
after_prefix-none (Text.◌∷◌ c p) (Text.◌∷◌ d s) h =
    elim (Bool-cases (str_eq (Text.◌∷◌ c Text.[]) (Text.◌∷◌ d Text.[]))) [
      | inl e ↦ rw e (after_prefix-none p s (rw e at h))
      | inr e ↦ rw e refl
    ]

-- The texts differ at a place that both have.
abbrev differ : String → String → Bool
differ Text.[] q = false
differ (Text.◌∷◌ c p) Text.[] = false
differ (Text.◌∷◌ c p) (Text.◌∷◌ d q) =
    if str_eq (Text.◌∷◌ c Text.[]) (Text.◌∷◌ d Text.[]) then differ p q else true

starts_with-append : (p q rest : String) → differ p q ≡ true → starts_with p (q & rest) ≡ false
starts_with-append Text.[] q rest h = absurd (ground arith)
starts_with-append (Text.◌∷◌ c p) Text.[] rest h = absurd (ground arith)
starts_with-append (Text.◌∷◌ c p) (Text.◌∷◌ d q) rest h =
    ap (starts_with (Text.◌∷◌ c p)) (append.cons d q rest)
    ∙ elim (Bool-cases (str_eq (Text.◌∷◌ c Text.[]) (Text.◌∷◌ d Text.[]))) [
      | inl e ↦ rw e (starts_with-append p q rest (rw e at h))
      | inr e ↦ rw e refl
    ]

scheme_changed :
    (rest : String) → starts_with "postgres://" ("postgresql+psycopg2://" & rest) ≡ false
scheme_changed rest = starts_with-append "postgres://" "postgresql+psycopg2://" rest refl

url_normalized : (value : String) → starts_with "postgres://" (normalize_database_url value) ≡ false
unfolding normalize_database_url
url_normalized value = elim (Option-cases (after_prefix "postgres://" value)) [
  | inl e ↦ rw e (after_prefix-none "postgres://" value e)
  | inr (rest, e) ↦ rw e (scheme_changed rest)
]

nonempty_items : (xs : List String) → contains "" (keep (λ item. not (str_eq item "")) xs) ≡ false
nonempty_items [] = refl
nonempty_items (x ∷ xs) = ground (arith, eq_iff x "", eq_iff "" x, nonempty_items xs)

environment_given :
    (e : Option Environment)
    → is_production (Option.get_or e Environment.development) ≡ true
    → e ≡ some production
environment_given none h = absurd (ground arith)
environment_given (some Environment.production) h = refl
environment_given (some Environment.staging) h = absurd (ground arith)
environment_given (some Environment.test) h = absurd (ground arith)
environment_given (some Environment.development) h = absurd (ground arith)

module _ (runtime : Runtime) (v : Variables) (s : Settings)
    (loaded : load_settings runtime v ≡ some s) where
  -- The values that the settings are made of.
  from_variables :
      (level : String) × (s ≡ settings_of runtime v v.secret_key level)
      × (checked_log_level runtime v.log_level ≡ some level)
      × (16 ≤ len v.secret_key)
      × ((is_production s.environment && is_insecure runtime s) ≡ false)
  unfolding load_settings
  from_variables = elim (Bool-cases (ltb (len v.secret_key) 16)) [
    | inl short ↦ absurd (ground (arith, loaded, short))
    | inr enough ↦ elim (Option-cases (checked_log_level runtime v.log_level)) [
      | inl e ↦ absurd (ground (arith, loaded, enough, e))
      | inr (level, e) ↦
          let made = settings_of runtime v v.secret_key level in
          elim (Bool-cases (is_production made.environment && is_insecure runtime made)) [
            | inl bad ↦ absurd (ground (arith, loaded, enough, e, bad))
            | inr good ↦
                let same : made ≡ s = ground (arith, loaded, enough, e, good) in
                (
                  level,
                  sym same,
                  e,
                  ground arith,
                  subst
                      (λ (x : Settings).
                        (is_production x.environment && is_insecure runtime x) ≡ false)
                      same good,
                )
          ]
    ]
  ]

  hosts_given :
      (hosts : Option Given)
      → contains "*" (list_or runtime hosts ("*" ∷ [])) ≡ false
      → (given : Given) × (hosts ≡ some given)
        × (list_or runtime hosts ("*" ∷ []) ≡ split_comma_separated runtime given)
  unfolding split_comma_separated
  hosts_given none h = absurd (ground arith)
  hosts_given (some given) h = (given, refl, refl)

  -- Settings that load for production have a secret key of 32 characters or more that is none of
  -- the placeholders in lower case, a database that is not SQLite and whose URL does not start with
  -- postgres://, and a frontend behind https://. The trusted hosts were set, and none of them,
  -- as split from the variable, is the wildcard. The production environment was asked for.
  pub production_settings_safe :
      is_production s.environment ≡ true
      → (32 ≤ len s.secret_key)
        × (contains (runtime.lower s.secret_key) insecure_secret_keys ≡ false)
        × (starts_with "sqlite" s.database_url ≡ false)
        × (starts_with "postgres://" s.database_url ≡ false)
        × (starts_with "https://" s.frontend_url ≡ true)
        × ((hosts : Given) × (v.trusted_hosts ≡ some hosts)
            × (s.trusted_hosts ≡ split_comma_separated runtime hosts)
            × (contains "*" s.trusted_hosts ≡ false))
        × (v.environment ≡ some production)
  unfolding settings_of
  production_settings_safe in_production =
      let (level, same, leveled, long, good) = from_variables in
      let safe : is_insecure runtime s ≡ false = ground (arith, good, in_production) in
      let explicit : contains "*" s.trusted_hosts ≡ false = ground (arith, safe) in
      let (hosts, given, split) =
        hosts_given v.trusted_hosts
          (ap (λ (x : Settings). contains "*" x.trusted_hosts) (sym same) ∙ explicit) in
      (
        ground (arith, safe),
        ground (arith, safe),
        ground (arith, safe),
        ap (λ (x : Settings). starts_with "postgres://" x.database_url) same
            ∙ url_normalized v.database_url,
        ground (arith, safe),
        (hosts, given, ap (λ (x : Settings). x.trusted_hosts) same ∙ split, explicit),
        environment_given v.environment
            (ap (λ (x : Settings). is_production x.environment) (sym same) ∙ in_production),
      )
