-- ===== src/Settings.antt =====
-- app/core/config.py: the settings and what is refused of them; the parts of app/core/oauth.py,
-- app/services/storage.py and app/db/session.py that read them.
pub mod Production
use Prim.Native.String.{◌++◌ as ◌&◌}
use mathlib.Core.Option
use fastapi_auth_api.Base.{
  ℕ, String, Bool, true, false, not, ◌&&◌, ◌||◌, Option, none, some, List, [], ◌∷◌, map, keep,
  contains, str_eq, ltb, leb, if◌then◌else◌, starts_with, after_prefix, len, split, is_some,
}
use fastapi_auth_api.Services.Runtime.{Runtime}

pub data Environment : Type 0 where
  development test staging production : Environment

-- The settings that the code tests; those that it only hands on (SMTP, URLs of services) are left
-- out.
pub record Settings : Type 0 where
  pub environment : Environment
  pub database_url : String
  pub secret_key : String
  pub frontend_url : String
  pub cors_origins : List String
  pub trusted_hosts : List String
  pub trusted_proxy_ips : List String
  pub log_level : String
  pub google_client_id : Option String
  pub google_client_secret : Option String
  pub github_client_id : Option String
  pub github_client_secret : Option String
  pub microsoft_client_id : Option String
  pub microsoft_client_secret : Option String
  pub s3_access_key_id : Option String
  pub s3_secret_access_key : Option String

-- A list-typed setting: the text of an environment variable, or a list.
pub data Given : Type 0 where
  text : String → Given
  items : List String → Given

-- What the environment sets, before any validation; `none` is a setting with a default.
pub record Variables : Type 0 where
  pub environment : Option Environment
  pub database_url : String
  pub secret_key : String
  pub frontend_url : String
  pub cors_origins : Option Given
  pub trusted_hosts : Option Given
  pub trusted_proxy_ips : Option Given
  pub log_level : Option String
  pub google_client_id : Option String
  pub google_client_secret : Option String
  pub github_client_id : Option String
  pub github_client_secret : Option String
  pub microsoft_client_id : Option String
  pub microsoft_client_secret : Option String
  pub s3_access_key_id : Option String
  pub s3_secret_access_key : Option String

abbrev pub insecure_secret_keys : List String
insecure_secret_keys =
    "replace-this-with-a-long-random-secret-key" ∷ "your-generated-secret-key" ∷ "changeme"
    ∷ "secret" ∷ "secretkey" ∷ []

abbrev pub min_secret_key_length : ℕ
min_secret_key_length = 16

abbrev pub min_production_secret_key_length : ℕ
min_production_secret_key_length = 32

abbrev pub log_levels : List String
log_levels = "DEBUG" ∷ "INFO" ∷ "WARNING" ∷ "ERROR" ∷ "CRITICAL" ∷ []

abbrev pub with_scheme : String → Option String → String
with_scheme value none = value
with_scheme value (some rest) = "postgresql+psycopg2://" & rest

unfoldable pub normalize_database_url : String → String
normalize_database_url value = with_scheme value (after_prefix "postgres://" value)

abbrev pub is_production : Environment → Bool
is_production production = true
is_production staging = false
is_production test = false
is_production development = false

-- `settings.debug` and `settings.docs_enabled`
abbrev pub debug : Environment → Bool
debug development = true
debug test = true
debug staging = false
debug production = false

abbrev pub docs_enabled : Environment → Bool
docs_enabled environment = not (is_production environment)

module _ (runtime : Runtime) where
  unfoldable pub split_comma_separated : Given → List String
  split_comma_separated (text value) =
      keep (λ item. not (str_eq item "")) (map runtime.strip (split "," value))
  split_comma_separated (items value) = value

  abbrev pub list_or : Option Given → List String → List String
  list_or none default = default
  list_or (some given) default = split_comma_separated given

  -- `none` is a ValueError.
  unfoldable pub validate_secret_key_length : String → Option String
  validate_secret_key_length value =
      if ltb (len value) min_secret_key_length then none else some value

  unfoldable pub validate_log_level : String → Option String
  validate_log_level value =
      if contains (runtime.upper value) log_levels then some (runtime.upper value) else none

  abbrev pub checked_log_level : Option String → Option String
  unfolding validate_log_level
  checked_log_level none = some "INFO"
  checked_log_level (some value) = validate_log_level value

  abbrev pub is_insecure : Settings → Bool
  is_insecure settings =
      ltb (len settings.secret_key) min_production_secret_key_length
      || (contains (runtime.lower settings.secret_key) insecure_secret_keys
          || (starts_with "sqlite" settings.database_url
              || (not (starts_with "https://" settings.frontend_url)
                  || contains "*" settings.trusted_hosts)))

  unfoldable pub validate_production_invariants : Settings → Option Settings
  validate_production_invariants settings =
      if is_production settings.environment && is_insecure settings then none else some settings

  unfoldable pub settings_of : Variables → String → String → Settings
  unfolding normalize_database_url split_comma_separated
  settings_of v secret_key log_level = record {
    environment = Option.get_or v.environment development;
    database_url = normalize_database_url v.database_url;
    secret_key = secret_key;
    frontend_url = v.frontend_url;
    cors_origins = list_or v.cors_origins ("http://localhost:3000" ∷ []);
    trusted_hosts = list_or v.trusted_hosts ("*" ∷ []);
    trusted_proxy_ips = list_or v.trusted_proxy_ips [];
    log_level = log_level;
    google_client_id = v.google_client_id;
    google_client_secret = v.google_client_secret;
    github_client_id = v.github_client_id;
    github_client_secret = v.github_client_secret;
    microsoft_client_id = v.microsoft_client_id;
    microsoft_client_secret = v.microsoft_client_secret;
    s3_access_key_id = v.s3_access_key_id;
    s3_secret_access_key = v.s3_secret_access_key;
  }

  -- `Settings()`: every validator of a field, and then that of the whole; a default is not validated.
  unfoldable pub load_settings : Variables → Option Settings
  unfolding validate_secret_key_length validate_log_level validate_production_invariants Option.bind
  load_settings v = Option.bind (validate_secret_key_length v.secret_key) λ secret_key.
      Option.bind (checked_log_level v.log_level)
        λ log_level. validate_production_invariants (settings_of v secret_key log_level)

-- `if settings.x_client_id and settings.x_client_secret`
abbrev pub are_given : Option String → Option String → Bool
are_given (some id) (some secret) = not (str_eq id "") && not (str_eq secret "")
are_given (some id) none = false
are_given none secret = false

-- The providers that app/core/oauth.py registers.
unfoldable pub is_registered : Settings → String → Bool
is_registered settings provider =
    if str_eq provider "google"
    then are_given settings.google_client_id settings.google_client_secret
    else if str_eq provider "microsoft"
    then are_given settings.microsoft_client_id settings.microsoft_client_secret
    else (str_eq provider "github"
        && are_given settings.github_client_id settings.github_client_secret)

unfoldable pub is_storage_configured : Settings → Bool
is_storage_configured settings = are_given settings.s3_access_key_id settings.s3_secret_access_key

-- `connect_args` of the engine in app/db/session.py.
abbrev pub check_same_thread : Settings → Option Bool
check_same_thread settings = if starts_with "sqlite" settings.database_url then some false else none
