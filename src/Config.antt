-- ===== src/Config.antt =====
-- internal/config/config.go: the configuration. A time.Duration is a number of nanoseconds.
pub mod Load
pub mod Urls
use charm_registry.Prelude.{String, Bool, ℤ}

pub record Config : Type 0 where
  pub listen_address : String
  pub public_api_url : String
  pub public_storage_url : String
  pub public_registry_url : String
  pub database_url : String
  pub s3_bucket : String
  pub s3_region : String
  pub s3_endpoint : String
  pub s3_access_key_id : String
  pub s3_secret_access_key : String
  pub s3_use_path_style : Bool
  pub s3_disable_tls : Bool
  pub oidc_issuer_url : String
  pub oidc_client_id : String
  pub oidc_username_claim : String
  pub oidc_display_name_claim : String
  pub oidc_email_claim : String
  pub enable_insecure_dev_auth : Bool
  pub registry_username : String
  pub registry_password : String
  pub registry_repository_root : String
  pub server_read_header_timeout : ℤ
  pub server_read_timeout : ℤ
  pub server_write_timeout : ℤ
  pub server_idle_timeout : ℤ
  pub server_shutdown_timeout : ℤ
  pub server_max_header_bytes : ℤ
  pub max_json_body_bytes : ℤ
  pub max_upload_bytes : ℤ
