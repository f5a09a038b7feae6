-- ===== src/Repo/Memory.antt =====
-- internal/repo/memory.go: the in-memory repository. Its operations are in the child modules, one
-- for each kind of record, and the proofs below those.
pub mod State
pub mod Accounts
pub mod Packages
pub mod Revisions
pub mod Resources
pub mod Releases
pub mod Ownership
pub mod Consistency
use charm_registry.Repo.Interface.{Repository}
use State.{Memory, Platform}

-- memory.go implements the interface.
abbrev pub memory_repository : Platform → Repository
memory_repository order = record {
  State = Memory;
  find_store_token_by_hash = Accounts.find_store_token_by_hash;
  ensure_account = Accounts.ensure_account;
  get_account_by_id = Accounts.get_account_by_id;
  create_store_token = Accounts.create_store_token;
  list_store_tokens = Accounts.list_store_tokens order;
  revoke_store_token = Accounts.revoke_store_token order;
  create_package = Packages.create_package;
  update_package = Packages.update_package;
  delete_package = Packages.delete_package;
  get_package_by_name = Packages.get_package_by_name;
  get_package_by_id = Packages.get_package_by_id;
  list_packages_for_account = Packages.list_packages_for_account order;
  search_packages = Packages.search_packages order;
  can_view_package = Packages.can_view_package;
  can_manage_package = Packages.can_manage_package;
  create_tracks = Packages.create_tracks;
  list_tracks = Packages.list_tracks;
  create_upload = Revisions.create_upload;
  get_upload = Revisions.get_upload;
  approve_upload = Revisions.approve_upload;
  create_revision = Revisions.create_revision;
  list_revisions = Revisions.list_revisions;
  get_revision_by_number = Revisions.get_revision_by_number;
  get_latest_revision = Revisions.get_latest_revision;
  upsert_resource_definition = Resources.upsert_resource_definition;
  get_resource_definition = Resources.get_resource_definition;
  list_resource_definitions = Resources.list_resource_definitions order;
  create_resource_revision = Resources.create_resource_revision;
  update_resource_revision = Resources.update_resource_revision;
  list_resource_revisions = Resources.list_resource_revisions;
  get_resource_revision = Resources.get_resource_revision;
  replace_release = Releases.replace_release;
  list_releases = Releases.list_releases order;
  resolve_release = Releases.resolve_release;
  resolve_default_release = Releases.resolve_default_release order;
}
