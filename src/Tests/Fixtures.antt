-- ===== src/Tests/Fixtures.antt =====
-- A small registry: two accounts, a public and a private package, a token, and a runtime that counts.
use Prim.Native.String.{◌++◌}
use mathlib.Core.List.Perm
use charm_registry.Prelude.{String, true, false, none, some, [], ◌∷◌, pos, Bool}
use charm_registry.Core.{Account, Identity, StoreToken, Package, Track, Release, Revision}
use charm_registry.Config.{Config}
use charm_registry.Errors.{ok, err, failure}
use charm_registry.Blob.{memory_store}
use charm_registry.Repo.Memory.{memory_repository}
use charm_registry.Repo.Memory.State.{Memory, Platform, new_memory}
use charm_registry.Service.Context.{Runtime, Service, World}

abbrev pub in_order : Platform
in_order = record { visit = λ m. m; lower_case = λ c. c; visit-perm = λ m. Perm.refl m }

abbrev pub config : Config
config = record {
  listen_address = ":8080";
  public_api_url = "http://api";
  public_storage_url = "http://storage";
  public_registry_url = "http://oci";
  database_url = "";
  s3_bucket = "charms";
  s3_region = "";
  s3_endpoint = "";
  s3_access_key_id = "";
  s3_secret_access_key = "";
  s3_use_path_style = true;
  s3_disable_tls = false;
  oidc_issuer_url = "";
  oidc_client_id = "";
  oidc_username_claim = "";
  oidc_display_name_claim = "";
  oidc_email_claim = "";
  enable_insecure_dev_auth = false;
  registry_username = "user";
  registry_password = "secret";
  registry_repository_root = "charms";
  server_read_header_timeout = pos 0;
  server_read_timeout = pos 0;
  server_write_timeout = pos 0;
  server_idle_timeout = pos 0;
  server_shutdown_timeout = pos 0;
  server_max_header_bytes = pos 0;
  max_json_body_bytes = pos 0;
  max_upload_bytes = pos 0;
}

abbrev pub runtime : Runtime
runtime = record {
  clock = λ n. n;
  uuid = λ n. "id";
  random = λ n. ok "seed";
  sha256 = λ s. "hash-of-" ++ s;
  sha384 = λ s. "384-of-" ++ s;
  sha512 = λ s. "512-of-" ++ s;
  decoders = record {
    files = λ s. err (failure "no archive");
    manifest = λ s. err (failure "no manifest");
    manifest_bases = λ s. err (failure "no bases");
    visit = λ m. m;
  };
  visit_resources = λ m. m;
}

abbrev pub service : Service
service = record {
  cfg = config;
  repo = memory_repository in_order;
  blobs = memory_store;
  runtime = runtime;
}

abbrev pub alice : Account
alice = record {
  id = "a1";
  subject = "s1";
  username = "alice";
  display_name = "Alice";
  email = "alice@example.com";
  validation = "verified";
  created_at = 1;
}

abbrev pub track : String → Track
track name = record {
  name = name;
  version_pattern = none;
  automatic_phasing_percentage = none;
  created_at = 1;
}

abbrev pub some_package : String → String → Bool → Package
some_package id name private = record {
  id = id;
  name = name;
  type = "charm";
  private = private;
  status = "registered";
  owner_account_id = "a1";
  authority = none;
  contact = none;
  default_track = none;
  description = none;
  summary = none;
  title = none;
  website = none;
  links = [];
  media = [];
  track_guardrails = [];
  tracks = track "latest" ∷ [];
  publisher = record {
    id = "a1";
    username = "alice";
    display_name = "";
    email = "";
    validation = "";
  };
  store = "";
  created_at = 1;
  updated_at = 1;
}

abbrev pub nginx : Package
nginx = some_package "p1" "nginx" true

abbrev pub with_nginx : Memory
with_nginx = record new_memory {
  packages = ("nginx", nginx) ∷ [];
  packages_by_id = ("p1", nginx) ∷ [];
}

abbrev pub token : StoreToken
token = record {
  session_id = "session";
  token_hash = "h1";
  account_id = "a1";
  description = none;
  packages = [];
  channels = "latest/edge" ∷ [];
  permissions = "package-manage" ∷ [];
  valid_since = 1;
  valid_until = 100;
  revoked_at = none;
  revoked_by = none;
}

abbrev pub owner : Identity
owner = record { account = alice; token = some token; authenticated = true }

abbrev pub world : World service
world = record { db = with_nginx; files = []; calls = 0 }

abbrev pub release_on : String → Release
release_on channel = record {
  id = "r";
  package_id = "p1";
  channel = channel;
  revision = pos 1;
  base = none;
  resources = [];
  when = 1;
  expiration_date = none;
  progressive = none;
}

abbrev pub revision : Revision
revision = record {
  id = "rev";
  package_id = "p1";
  revision = pos 1;
  version = "1";
  status = "approved";
  created_at = 1;
  created_by = "a1";
  size = 0;
  sha256 = "";
  sha384 = "";
  object_key = "";
  metadata_yaml = "";
  config_yaml = "";
  actions_yaml = "";
  bundle_yaml = "";
  readme_md = "";
  bases = [];
  attributes = [];
  relations = [];
  subordinate = false;
  resources = [];
}

-- One revision, released to latest/stable.
abbrev pub released : Memory
released = record with_nginx {
  revisions = ("p1", revision ∷ []) ∷ [];
  releases = ("p1", ("latest/stable", release_on "latest/stable") ∷ []) ∷ [];
}
