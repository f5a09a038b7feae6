-- ===== src/Tests/Registrations.antt =====
-- The theorems on registration, releases, uploads and archives, for a small registry in memory.
use charm_registry.Prelude.{◌≡◌, refl, true, false, none, some, List, [], ◌∷◌, All}
use charm_registry.Prelude.Maps.{Map, lookup, insert}
use charm_registry.Core.{
  Identity, Package, Release, Upload, CharmContainer, CharmManifest, CharmResourceDeclaration,
  other,
}
use charm_registry.Errors.{ok}
use charm_registry.Blob.{memory_get}
use charm_registry.Charm.{populate_container_resources}
use charm_registry.Charm.Containers.{IsDeclared, populate_container_resources-IsDeclared}
use charm_registry.Repo.Memory.State.{new_memory}
use charm_registry.Repo.Memory.Packages.{
  can_manage_package, create_package, create_tracks, get_package_by_name, update_package,
}
use charm_registry.Repo.Memory.Packages.Index.{IsIndexed, IsIndexed-new_memory}
use charm_registry.Repo.Memory.Revisions.{get_upload, get_revision_by_number}
use charm_registry.Repo.Memory.Releases.{replace_release}
use charm_registry.Text.{remove_char}
use charm_registry.Service.Context.{World, ◌>>=◌}
use charm_registry.Service.Helpers.{compact_id}
use charm_registry.Service.Guards.{
  perm_account_register_package, require_permission, require_package_manage,
  enforce_channel_restriction,
}
use charm_registry.Service.Guards.Permissions.{MayUse}
use charm_registry.Service.Packages.{register_package, registered}
use charm_registry.Service.Packages.Registration.{register_package-IsIndexed}
use charm_registry.Service.Releases.{release}
use charm_registry.Service.Releases.Allowed.{IsAllowed, release-IsAllowed}
use charm_registry.Service.Revisions.{create_upload}
use charm_registry.Service.Revisions.Uploads.{in_memory, create_upload_stored}
use charm_registry.Tests.Fixtures.{
  in_order, config, runtime, service, alice, token, released, release_on,
}

abbrev empty_world : World (in_memory config runtime in_order)
empty_world = record { db = new_memory; files = []; calls = 0 }

create_upload_stored_example :
    (upload : Upload) × (v : World (in_memory config runtime in_order)) × (create_upload
        (in_memory config runtime in_order)
        "a.charm"
        "bytes"
        empty_world
      ≡ (ok upload, v))
    × (memory_get upload.object_key v.files ≡ ok "bytes")
    × (get_upload upload.id v.db ≡ ok upload)
    × (upload.status ≡ "pending")
    × (upload.filename ≡ "a.charm")
create_upload_stored_example =
    create_upload_stored config runtime in_order "a.charm" "bytes" empty_world

abbrev manifest : CharmManifest
manifest = record {
  name = "nginx";
  display_name = "";
  summary = "";
  description = "";
  docs = "";
  issues = "";
  source = "";
  website = other;
  subordinate = false;
  bases = [];
  resources =
      ("config", record { type = "file"; description = ""; filename = "c"; upstream_source = "" })
      ∷ [];
  containers = ("web", record { resource = "image" }) ∷ ("side", record { resource = "" }) ∷ [];
  provides = [];
  requires = [];
  peers = [];
  assumes = other;
}

abbrev in_turn : Map CharmContainer → Map CharmContainer
in_turn containers = containers

populate_container_resources-IsDeclared_example :
    All
      (IsDeclared (populate_container_resources in_turn manifest).resources)
      (in_turn manifest.containers)
populate_container_resources-IsDeclared_example =
    populate_container_resources-IsDeclared in_turn manifest

abbrev declaration : CharmResourceDeclaration
declaration = record { type = "file"; description = ""; filename = "c"; upstream_source = "" }

config-declared : lookup "config" manifest.resources ≡ some declaration
unfolding lookup
config-declared = refl

abbrev registrar : Identity
registrar = record { account = alice; token = none; authenticated = true }

abbrev new_package : Package
new_package = registered config registrar "id" "web" "" false 0

registration :
    register_package (in_memory config runtime in_order) registrar "web" "" false empty_world ≡ (
      ok new_package,
      (register_package (in_memory config runtime in_order) registrar "web" "" false empty_world).1,
    )
unfolding register_package ◌>>=◌ require_permission create_package lookup create_tracks insert
    compact_id remove_char
registration = refl

unused_id : lookup (compact_id (runtime.uuid 1)) new_memory.packages_by_id ≡ none
unfolding lookup
unused_id = refl

register_package-IsIndexed_example :
    (true ≡ true)
    × MayUse none perm_account_register_package
    × IsIndexed
        (register_package
          (in_memory config runtime in_order)
          registrar
          "web"
          ""
          false
          empty_world).1.db
    × (new_package.owner_account_id ≡ alice.id)
    × (new_package.name ≡ "web")
register_package-IsIndexed_example =
    register_package-IsIndexed config runtime in_order registrar "web" "" false new_package
      empty_world
      (register_package (in_memory config runtime in_order) registrar "web" "" false empty_world).1
      IsIndexed-new_memory unused_id registration

abbrev publisher : Identity
publisher = record {
  account = alice;
  token = some (record token { permissions = [] });
  authenticated = true;
}

abbrev releasing_world : World service
releasing_world = record { db = released; files = []; calls = 0 }

abbrev requests : List Release
requests = release_on "latest/edge" ∷ []

releasing :
    release service publisher "nginx" requests releasing_world
    ≡ (ok requests, (release service publisher "nginx" requests releasing_world).1)
unfolding release ◌>>=◌ get_package_by_name lookup require_package_manage can_manage_package
    get_revision_by_number enforce_channel_restriction replace_release update_package
releasing = refl

release-IsAllowed_example : All (IsAllowed publisher) requests
release-IsAllowed_example =
    release-IsAllowed service publisher "nginx" requests requests releasing_world
      (release service publisher "nginx" requests releasing_world).1 releasing
