-- ===== src/Service/Root.antt =====
-- internal/service/service.go: the document on the service itself.
use charm_registry.Prelude.{String}
use charm_registry.Config.{Config}

-- The map of RootDocument, by its keys.
pub record RootDocument : Type 0 where
  pub service_name : String
  pub version : String
  pub api_url : String
  pub storage_url : String
  pub registry_url : String

-- RootDocument
unfoldable pub root_document : Config → RootDocument
root_document cfg = record {
  service_name = "private-charm-registry";
  version = "v1";
  api_url = cfg.public_api_url;
  storage_url = cfg.public_storage_url;
  registry_url = cfg.public_registry_url;
}
