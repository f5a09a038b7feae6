-- ===== src/Repo/Interface.antt =====
-- internal/repo/interface.go: what the service asks of a repository. A method that changes nothing
-- reads the state; one that writes gives the new state beside its result, and an error of a single
-- method leaves the state as it was. The time that a method reads by time.Now is its argument.
use charm_registry.Prelude.{ℕ, String, Bool, Option, List, ℤ}
use charm_registry.Core.{
  Time, Account, StoreToken, Package, Track, Upload, ApiError, Revision, ResourceDefinition,
  ResourceRevision, Release,
}
use charm_registry.Errors.{Result}

pub record Repository : Type 1 where
  pub State : Type 0
  pub find_store_token_by_hash : String → State → Result (StoreToken × Account)
  pub ensure_account : Time → Account → State → Result (Account × State)
  pub get_account_by_id : String → State → Result Account
  pub create_store_token : StoreToken → State → Result (Unit {0} × State)
  pub list_store_tokens : Time → String → Bool → State → Result (List StoreToken)
  pub revoke_store_token : Time → String → String → String → State → Result (Unit {0} × State)
  pub create_package : Package → State → Result (Unit {0} × State)
  pub update_package : Package → State → Result (Unit {0} × State)
  pub delete_package : String → State → Result (Unit {0} × State)
  pub get_package_by_name : String → State → Result Package
  pub get_package_by_id : String → State → Result Package
  pub list_packages_for_account : String → Bool → State → Result (List Package)
  pub search_packages : String → State → Result (List Package)
  pub can_view_package : String → String → State → Result Bool
  pub can_manage_package : String → String → State → Result Bool
  pub create_tracks : String → List Track → State → Result (ℕ × State)
  pub list_tracks : String → State → Result (List Track)
  pub create_upload : Upload → State → Result (Unit {0} × State)
  pub get_upload : String → State → Result Upload
  pub approve_upload : Time → String → Option ℤ → List ApiError → State → Result (Unit {0} × State)
  pub create_revision : Revision → State → Result (Unit {0} × State)
  pub list_revisions : String → Option ℤ → State → Result (List Revision)
  pub get_revision_by_number : String → ℤ → State → Result Revision
  pub get_latest_revision : String → State → Result Revision
  pub upsert_resource_definition : ResourceDefinition → State → Result (ResourceDefinition × State)
  pub get_resource_definition : String → String → State → Result ResourceDefinition
  pub list_resource_definitions : String → State → Result (List ResourceDefinition)
  pub create_resource_revision : ResourceRevision → State → Result (Unit {0} × State)
  pub update_resource_revision : ResourceRevision → State → Result (Unit {0} × State)
  pub list_resource_revisions : String → State → Result (List ResourceRevision)
  pub get_resource_revision : String → ℤ → State → Result ResourceRevision
  pub replace_release : String → Release → State → Result (Unit {0} × State)
  pub list_releases : String → State → Result (List Release)
  pub resolve_release : String → String → State → Result Release
  pub resolve_default_release : String → State → Result Release
