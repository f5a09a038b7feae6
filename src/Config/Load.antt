-- ===== src/Config/Load.antt =====
-- internal/config/config.go: the configuration that the environment of the process gives.
-- time.ParseDuration is not code of the repository.
use charm_registry.Prelude.{
  ℕ, ◌*◌, ◌^◌, String, Bool, true, false, ◌||◌, Option, none, some, ℤ, pos, ◌==◌, if◌then◌else◌,
}
use charm_registry.Errors.{Result, ok, err, failure}
use charm_registry.Text.Decimal.{atoi}
use charm_registry.Text.Trim.{trim_right_char, trim_char}
use charm_registry.Config.{Config}

-- os.LookupEnv and time.ParseDuration, which gives nanoseconds
pub record Environment : Type 0 where
  pub lookup_env : String → Option String
  pub parse_duration : String → Option ℤ

unfoldable pub value_or : String → Option String → String
value_or fallback none = fallback
value_or fallback (some value) = value

-- A variable that is set and not empty.
unfoldable pub set_value : Option String → Option String
set_value none = none
set_value (some value) = if value == "" then none else some value

-- os.Getenv
unfoldable pub getenv : Environment → String → String
unfolding value_or
getenv e key = value_or "" (e.lookup_env key)

-- env
unfoldable pub env : Environment → String → String → String
unfolding value_or set_value
env e key fallback = value_or fallback (set_value (e.lookup_env key))

-- A value that is parsed; the fallback stands in for one that is missing, empty or not well formed.
unfoldable pub parsed_or {ℓ} : {A : Type ℓ} → (String → Option A) → A → Option String → A
parsed_or parse fallback none = fallback
parsed_or parse fallback (some raw) = elim (parse raw) [ none ↦ fallback | some value ↦ value ]

-- strconv.ParseBool
unfoldable pub parse_bool : String → Option Bool
parse_bool raw =
    if raw == "1" || raw == "t" || raw == "T" || raw == "TRUE" || raw == "true" || raw == "True"
    then some true
    else if raw == "0"
        || raw == "f"
        || raw == "F"
        || raw == "FALSE"
        || raw == "false"
        || raw == "False"
    then some false
    else none

-- envBool
unfoldable pub env_bool : Environment → String → Bool → Bool
unfolding parsed_or set_value parse_bool
env_bool e key fallback = parsed_or parse_bool fallback (set_value (e.lookup_env key))

-- envInt and envInt64, which are one where an int has 64 bits
unfoldable pub env_int : Environment → String → ℤ → ℤ
unfolding parsed_or set_value atoi
env_int e key fallback = parsed_or atoi fallback (set_value (e.lookup_env key))

-- envDuration
unfoldable pub env_duration : Environment → String → ℤ → ℤ
unfolding parsed_or set_value
env_duration e key fallback = parsed_or e.parse_duration fallback (set_value (e.lookup_env key))

-- A number of seconds as a time.Duration.
abbrev seconds : ℕ → ℤ
seconds n = pos (n * 10 ^ 9)

abbrev without_slash : String → String
without_slash url = trim_right_char b'/' url

-- The literal of Load.
unfoldable pub loaded : Environment → Config
unfolding getenv env env_bool env_int env_duration trim_right_char trim_char
loaded e = record {
  listen_address = env e "CHARM_REGISTRY_LISTEN" ":8080";
  public_api_url = without_slash (env e "CHARM_REGISTRY_PUBLIC_API_URL" "http://localhost:8080");
  public_storage_url =
      without_slash (env e "CHARM_REGISTRY_PUBLIC_STORAGE_URL" "http://localhost:8080");
  public_registry_url =
      without_slash (env e "CHARM_REGISTRY_PUBLIC_REGISTRY_URL" "http://localhost:5000");
  database_url = getenv e "CHARM_REGISTRY_DATABASE_URL";
  s3_bucket = env e "CHARM_REGISTRY_S3_BUCKET" "charm-registry";
  s3_region = env e "CHARM_REGISTRY_S3_REGION" "us-east-1";
  s3_endpoint = without_slash (getenv e "CHARM_REGISTRY_S3_ENDPOINT");
  s3_access_key_id = getenv e "CHARM_REGISTRY_S3_ACCESS_KEY_ID";
  s3_secret_access_key = getenv e "CHARM_REGISTRY_S3_SECRET_ACCESS_KEY";
  s3_use_path_style = env_bool e "CHARM_REGISTRY_S3_USE_PATH_STYLE" true;
  s3_disable_tls = env_bool e "CHARM_REGISTRY_S3_DISABLE_TLS" false;
  oidc_issuer_url = without_slash (getenv e "CHARM_REGISTRY_OIDC_ISSUER_URL");
  oidc_client_id = getenv e "CHARM_REGISTRY_OIDC_CLIENT_ID";
  oidc_username_claim = env e "CHARM_REGISTRY_OIDC_USERNAME_CLAIM" "preferred_username";
  oidc_display_name_claim = env e "CHARM_REGISTRY_OIDC_DISPLAY_NAME_CLAIM" "name";
  oidc_email_claim = env e "CHARM_REGISTRY_OIDC_EMAIL_CLAIM" "email";
  enable_insecure_dev_auth = env_bool e "CHARM_REGISTRY_ENABLE_INSECURE_DEV_AUTH" true;
  registry_username = env e "CHARM_REGISTRY_REGISTRY_USERNAME" "registry";
  registry_password = env e "CHARM_REGISTRY_REGISTRY_PASSWORD" "registry-secret";
  registry_repository_root =
      trim_char b'/' (env e "CHARM_REGISTRY_REGISTRY_REPOSITORY_ROOT" "charms");
  server_read_header_timeout =
      env_duration e "CHARM_REGISTRY_SERVER_READ_HEADER_TIMEOUT" (seconds 10);
  server_read_timeout = env_duration e "CHARM_REGISTRY_SERVER_READ_TIMEOUT" (seconds 30);
  server_write_timeout = env_duration e "CHARM_REGISTRY_SERVER_WRITE_TIMEOUT" (seconds 30);
  server_idle_timeout = env_duration e "CHARM_REGISTRY_SERVER_IDLE_TIMEOUT" (seconds 120);
  server_shutdown_timeout = env_duration e "CHARM_REGISTRY_SERVER_SHUTDOWN_TIMEOUT" (seconds 30);
  server_max_header_bytes = env_int e "CHARM_REGISTRY_SERVER_MAX_HEADER_BYTES" (pos (2 ^ 20));
  max_json_body_bytes = env_int e "CHARM_REGISTRY_MAX_JSON_BODY_BYTES" (pos (2 ^ 20));
  max_upload_bytes = env_int e "CHARM_REGISTRY_MAX_UPLOAD_BYTES" (pos (64 * 2 ^ 20));
}

-- Load
unfoldable pub load : Environment → Result Config
unfolding loaded
load e =
    let cfg = loaded e in
    if cfg.database_url == ""
    then err (failure "CHARM_REGISTRY_DATABASE_URL is required")
    else ok cfg
