-- ===== src/Service/Releases.antt =====
-- internal/service/releases.go: releases, tracks and the refresh of installed charms.
pub mod Resolution
pub mod Allowed
use charm_registry.Prelude.{
  ℕ, String, Bool, true, false, Option, none, some, List, [], ◌∷◌, ◌==◌, ℤ, is_positive, is_empty,
  eq_nat, if◌then◌else◌,
}
use charm_registry.Prelude.Maps.{Map, lookup, insert}
use charm_registry.Core.{
  Time, Identity, Package, Track, Base, Revision, Release, ReleaseResourceRef, ResourceRevision,
  ResourceDefinition,
}
use charm_registry.Errors.{
  Result, ok, err, new_error, map_error, each, Error, ServiceError, service, not_found, conflict,
  failure, ◌>>=◌ as ◌and_then◌,
}
use charm_registry.Service.Context.{
  Service, World, Action, ◌>>=◌, ◌>>◌, pure, read, write, lift, now, new_uuid, catch_as,
}
use charm_registry.Service.Helpers.{translate_repo_error, channel_or_default}
use charm_registry.Service.Guards.{
  perm_package_manage_releases, perm_package_manage_metadata, require_package_view,
  require_package_manage, enforce_channel_restriction,
}
use charm_registry.Service.Channels.{normalize_channel}
use charm_registry.Service.Packages.{package_named}
use charm_registry.Service.Views.{attach_resource_download, RefreshEntity, refresh_entity}

-- The test of Release on the channel of a request.
unfoldable pub require_channel : String → Result (Unit {0})
require_channel channel =
    if channel == "" then err (new_error 400 "invalid-request" "channel is required") else ok tt

-- `if request.When.IsZero() { request.When = now }`
unfoldable pub dated : Time → Release → Release
dated t request = if eq_nat request.when 0 then record request { when = t } else request

-- `pkg.Status = "published"; pkg.UpdatedAt = now`
unfoldable pub published : Time → Package → Package
published t pkg = record pkg { status = "published"; updated_at = t }

-- The loop of CreateTracks that dates the tracks.
unfoldable pub dated_tracks : Time → List Track → List Track
dated_tracks t [] = []
dated_tracks t (track ∷ tracks) =
    (if eq_nat track.created_at 0 then record track { created_at = t } else track)
    ∷ dated_tracks t tracks

module _ (s : Service) where
  -- `if request.ID == "" { request.ID = uuid.NewString() }`
  unfoldable pub identified : Release → Action s Release
  unfolding pure new_uuid
  identified request =
      if request.id == ""
      then (do id ← new_uuid; pure (record request { id = id }))
      else pure request

  -- One round of the loop of Release.
  unfoldable pub release_one : Identity → Package → Time → Release → Action s Release
  unfolding lift read write pure identified dated require_channel
  release_one identity pkg t request = do
    lift (require_channel request.channel)
    revision ← read (λ db.
        map_error (translate_repo_error "revision not found")
          (s.repo.get_revision_by_number pkg.id request.revision db))
    request' ← identified (dated t request)
    lift (enforce_channel_restriction identity request.channel)
    write (s.repo.replace_release pkg.id request')
    pure request'

  -- The loop of Release.
  unfoldable pub release_all : Identity → Package → Time → List Release → Action s (List Release)
  unfolding release_one pure
  release_all identity pkg t [] = pure []
  release_all identity pkg t (request ∷ requests) = do
    first ← release_one identity pkg t request
    others ← release_all identity pkg t requests
    pure (first ∷ others)

  -- Release
  unfoldable pub release : Identity → String → List Release → Action s (List Release)
  unfolding read now write pure release_all package_named published
  release identity charm_name requests = do
    pkg ← read (package_named s charm_name)
    read (require_package_manage s.repo identity pkg perm_package_manage_releases)
    t ← now
    released ← release_all identity pkg t requests
    write (s.repo.update_package (published t pkg))
    pure released

  -- CreateTracks
  unfoldable pub create_tracks : Identity → String → List Track → Action s ℕ
  unfolding read now write package_named dated_tracks
  create_tracks identity charm_name tracks = do
    pkg ← read (package_named s charm_name)
    read (require_package_manage s.repo identity pkg perm_package_manage_metadata)
    t ← now
    write (s.repo.create_tracks pkg.id (dated_tracks t tracks))

  -- The loop of resolveReleaseResources; a reference with no revision is passed over.
  unfoldable pub resolve_refs :
      String → List ReleaseResourceRef → s.repo.State → Result (List ResourceRevision)
  resolve_refs package_id [] db = ok []
  resolve_refs package_id (ref ∷ refs) db =
      s.repo.get_resource_definition package_id ref.name db and_then λ def. elim ref.revision [
        | none ↦ resolve_refs package_id refs db
        | some number ↦ s.repo.get_resource_revision def.id number db and_then λ revision.
            resolve_refs package_id refs db and_then λ rest.
            ok (attach_resource_download s.cfg package_id revision ∷ rest)
      ]

  -- resolveReleaseResources; the definitions that it is given are not used
  unfoldable pub resolve_release_resources :
      String → List ResourceDefinition → Release → s.repo.State → Result (List ResourceRevision)
  unfolding resolve_refs
  resolve_release_resources package_id resource_defs release db =
      resolve_refs package_id release.resources db
