-- ===== src/Tests/Settings.antt =====
-- Settings that load, and settings that do not.
use fastapi_auth_api.Base.{◌≤◌, ◌≡◌, refl, true, some, none, [], ◌∷◌, len}
use fastapi_auth_api.Settings.{
  Settings, Variables, text, production, is_production, load_settings, settings_of,
}
use fastapi_auth_api.Settings.Production.{production_settings_safe}
use fastapi_auth_api.Memory.{memory_runtime}

abbrev deployed : Variables
deployed = record {
  environment = some production;
  database_url = "postgres://db/app";
  secret_key = "0123456789abcdef0123456789abcdef";
  frontend_url = "https://app.example.org";
  cors_origins = none;
  trusted_hosts = some (text "api.example.org,example.org");
  trusted_proxy_ips = none;
  log_level = some "INFO";
  google_client_id = none;
  google_client_secret = none;
  github_client_id = none;
  github_client_secret = none;
  microsoft_client_id = none;
  microsoft_client_secret = none;
  s3_access_key_id = none;
  s3_secret_access_key = none;
}

abbrev loaded : Settings
unfolding settings_of
loaded = settings_of memory_runtime deployed deployed.secret_key "INFO"

deployed_loads : load_settings memory_runtime deployed ≡ some loaded
unfolding load_settings settings_of
deployed_loads = refl

split_hosts : loaded.trusted_hosts ≡ "api.example.org" ∷ "example.org" ∷ []
unfolding settings_of
split_hosts = refl

new_scheme : loaded.database_url ≡ "postgresql+psycopg2://db/app"
unfolding settings_of
new_scheme = refl

is_live : is_production loaded.environment ≡ true
unfolding settings_of
is_live = refl

production_settings_safe_example : 32 ≤ len loaded.secret_key
production_settings_safe_example =
    (production_settings_safe memory_runtime deployed loaded deployed_loads is_live).0

-- With no trusted hosts set the wildcard stands, and production refuses it.
wildcard_refused : load_settings memory_runtime (record deployed { trusted_hosts = none }) ≡ none
unfolding load_settings settings_of
wildcard_refused = refl
