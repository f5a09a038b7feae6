-- ===== src/Service/Search.antt =====
-- internal/service/packages.go and releases.go: Find, Info and ListReleases.
use charm_registry.Prelude.{
  String, false, Option, none, some, List, [], ◌∷◌, ℤ, eq_int, if◌then◌else◌,
}
use charm_registry.Prelude.Maps.{Map}
use charm_registry.Config.{Config}
use charm_registry.Core.{Time, Identity, Package, Base, Revision, Release}
use charm_registry.Errors.{Result, ok, err, not_found, map_error, ◌>>=◌}
use charm_registry.Service.Context.{Service}
use charm_registry.Service.Helpers.{translate_repo_error}
use charm_registry.Service.Guards.{can_see_package}
use charm_registry.Service.Packages.{enrich_packages, get_package}
use charm_registry.Service.Releases.{resolve_release_resources}
use charm_registry.Service.Views.{
  ChannelView, channel_view, RevisionInfo, revision_to_info, PackageResult, package_result,
  FileView, file_view, ResourceView, release_resources_to_downloads,
}

pub record DefaultRelease : Type 0 where
  pub channel : ChannelView
  pub resources : List ResourceView
  pub revision : RevisionInfo

pub record FindRevision : Type 0 where
  pub attributes : Map String
  pub bases : List Base
  pub created_at : Time
  pub download : FileView
  pub revision : ℤ
  pub version : String

-- The revision of a result of packageFindResult.
unfoldable pub find_revision : Config → String → Revision → FindRevision
find_revision cfg package_id revision = record {
  attributes = revision.attributes;
  bases = revision.bases;
  created_at = revision.created_at;
  download = file_view cfg package_id revision;
  revision = revision.revision;
  version = revision.version;
}

-- An entry of the results of Find.
pub record FindResult : Type 0 where
  pub id : String
  pub name : String
  pub type : String
  pub channel : ChannelView
  pub revision : FindRevision
  pub result : PackageResult

pub record ChannelEntry : Type 0 where
  pub channel : ChannelView
  pub revision : RevisionInfo

pub record InfoResult : Type 0 where
  pub id : String
  pub name : String
  pub type : String
  pub default_release : DefaultRelease
  pub channel_map : List ChannelEntry
  pub result : PackageResult

-- revisionCache[number]
unfoldable pub cached : ℤ → List (ℤ × Revision) → Option Revision
cached number [] = none
cached number ((n, rev) ∷ cache) = if eq_int n number then some rev else cached number cache

-- `if errors.Is(err, repo.ErrNotFound) { continue }`
unfoldable pub keep_found {ℓ} : {A : Type ℓ} → Result A → Result (List A) → Result (List A)
keep_found (ok item) rest = rest >>= λ items. ok (item ∷ items)
keep_found (err not_found) rest = rest
keep_found (err e) rest = err e

module _ (s : Service) where
  -- packageFindResult
  unfoldable pub package_find_result : Package → s.repo.State → Result FindResult
  unfolding channel_view find_revision file_view package_result
  package_find_result pkg db = do
    release ← s.repo.resolve_default_release pkg.id db
    revision ← s.repo.get_revision_by_number pkg.id release.revision db
    ok (record {
      id = pkg.id;
      name = pkg.name;
      type = pkg.type;
      channel = channel_view release;
      revision = find_revision s.cfg pkg.id revision;
      result = package_result pkg;
    })

  -- The loop of Find.
  unfoldable pub find_each : Identity → List Package → s.repo.State → Result (List FindResult)
  unfolding keep_found
  find_each identity [] db = ok []
  find_each identity (pkg ∷ packages) db =
      let rest = find_each identity packages db in
      if can_see_package s.repo identity pkg db
      then keep_found (package_find_result pkg db) rest
      else rest

  -- Find
  unfoldable pub find : Identity → String → s.repo.State → Result (List FindResult)
  unfolding find_each enrich_packages
  find identity query db = do
    packages ← s.repo.search_packages query db
    enriched ← enrich_packages s packages db
    find_each identity enriched db

  -- A revision of the loop of Info: from the cache of revisions loaded before, or the repository.
  unfoldable pub cached_revision : String → ℤ → List (ℤ × Revision) → s.repo.State → Result Revision
  unfolding cached
  cached_revision package_id number cache db = elim (cached number cache) [
    | some rev ↦ ok rev
    | none ↦ s.repo.get_revision_by_number package_id number db
  ]

  -- The loop of Info over the releases; a release whose revision is not read is left out.
  unfoldable pub channel_entries :
      Package → List Release → List (ℤ × Revision) → s.repo.State → List ChannelEntry
  unfolding cached_revision channel_view revision_to_info
  channel_entries pkg [] cache db = []
  channel_entries pkg (release ∷ releases) cache db =
      elim (cached_revision pkg.id release.revision cache db) [
        | err e ↦ channel_entries pkg releases cache db
        | ok rev ↦
            record { channel = channel_view release; revision = revision_to_info rev pkg.id s.cfg }
            ∷ channel_entries pkg releases ((release.revision, rev) ∷ cache) db
      ]

  -- Info
  unfoldable pub info : Identity → String → s.repo.State → Result InfoResult
  unfolding channel_entries get_package resolve_release_resources channel_view revision_to_info
      release_resources_to_downloads package_result
  info identity charm_name db = do
    pkg ← get_package s identity charm_name false db
    release ←
        map_error (translate_repo_error "no released revisions found")
          (s.repo.resolve_default_release pkg.id db)
    revision ← s.repo.get_revision_by_number pkg.id release.revision db
    resource_defs ← s.repo.list_resource_definitions pkg.id db
    resources ← resolve_release_resources s pkg.id resource_defs release db
    releases ← s.repo.list_releases pkg.id db
    let default_revision = record revision { resources = resources }
    ok (record {
      id = pkg.id;
      name = pkg.name;
      type = pkg.type;
      default_release = record {
        channel = channel_view release;
        resources = release_resources_to_downloads pkg.id resources s.cfg;
        revision = revision_to_info default_revision pkg.id s.cfg;
      };
      channel_map = channel_entries pkg releases ((release.revision, default_revision) ∷ []) db;
      result = package_result pkg;
    })
