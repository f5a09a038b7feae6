-- ===== src/Tests/Postgres.antt =====
-- The theorems on the Postgres repository, on small tables.
use charm_registry.Prelude.{
  ◌&&◌, String, Bool, true, false, ◌≡◌, refl, [], ◌∷◌, ◌==◌, any, if◌then◌else◌,
}
use charm_registry.Prelude.Maps.{lookup}
use charm_registry.Core.{Release, Revision}
use charm_registry.Errors.{ok, err, not_found}
use charm_registry.Repo.Memory.State.{Memory}
use charm_registry.Repo.Memory.Accounts.{find}
use charm_registry.Repo.Memory.Releases
use charm_registry.Repo.Postgres.Tables.{Tables, package_row, has_package, duplicate_key}
use charm_registry.Repo.Postgres.Revisions.{create_revision, get_revision_by_number, scanned}
use charm_registry.Repo.Postgres.Revisions.Numbers.{create_revision-create_revision}
use charm_registry.Repo.Postgres.Releases.{found, replace_release, resolve_release}
use charm_registry.Repo.Postgres.Releases.Agreement.{Agrees, replace_release-Agrees}
use charm_registry.Repo.Postgres.Packages.{row_of, get_package_by_id, delete_package}
use charm_registry.Repo.Postgres.Packages.Deletion.{delete_package-cascades}
use charm_registry.Repo.Postgres.Tracks.{track_row, list_tracks}
use charm_registry.Repo.Postgres.Access.{
  can_access, can_view_package, can_manage_package, is_collaborator, grants, roles_of,
  through_group,
}
use charm_registry.Repo.Postgres.Access.Roles.{can_manage_package-can_view_package}
use charm_registry.Repo.Postgres.Accounts.{revoke_store_token, find_store_token_by_hash}
use charm_registry.Repo.Postgres.Accounts.Revocation.{
  found_after, find_store_token_by_hash-revoke_store_token,
}
use charm_registry.Tests.Fixtures.{alice, token, track, nginx, with_nginx, release_on, revision}

-- A package of a1 that the group g with the member a2 may edit.
abbrev tables : Tables
tables = record {
  accounts = alice ∷ record alice { id = "a2"; subject = "s2"; username = "bob" } ∷ [];
  store_tokens = token ∷ [];
  packages = row_of nginx ∷ [];
  package_acl =
      record { package_id = "p1"; principal_type = "group"; principal_id = "g"; role = "editor" }
      ∷ [];
  members = record { group_id = "g"; account_id = "a2" } ∷ [];
  tracks = track_row "p1" (track "latest") ∷ [];
  uploads = [];
  revisions = [];
  releases = [];
}

nginx_is_held : has_package "p1" tables ≡ true
unfolding has_package row_of
nginx_is_held = refl

both_empty : Agrees tables with_nginx
unfolding resolve_release found Releases.resolve_release Releases.releases_of find lookup
both_empty package_id channel = refl

-- A release as the handler makes it, without a package ID.
abbrev asked : String → Release
asked channel = record (release_on channel) { package_id = "" }

replace_release-Agrees_example :
    (t' : Tables) × (m' : Memory) × (replace_release "p1" (asked "2.0/edge") tables ≡ ok t')
    × (Releases.replace_release "p1" (asked "2.0/edge") with_nginx ≡ ok (tt, m'))
    × Agrees t' m'
replace_release-Agrees_example =
    replace_release-Agrees "p1" (asked "2.0/edge") tables with_nginx nginx_is_held refl both_empty

delete_package-cascades_example :
    (t' : Tables) × (delete_package "p1" tables ≡ ok t')
    × (get_package_by_id "p1" t' ≡ err not_found)
    × (list_tracks "p1" t' ≡ ok [])
    × ((manage : Bool) (account_id : String) → can_access manage "p1" account_id t' ≡ err not_found)
    × ((other channel : String)
        → resolve_release other channel t'
          ≡ (if "p1" == other then err not_found else resolve_release other channel tables))
delete_package-cascades_example = delete_package-cascades "p1" tables nginx_is_held

session_is_held :
    any
      (λ row. row.account_id == token.account_id && row.session_id == token.session_id)
      tables.store_tokens
    ≡ true
session_is_held = refl

find_store_token_by_hash-revoke_store_token_example :
    (t' : Tables) × (revoke_store_token 5 token.account_id token.session_id "a1" tables ≡ ok t')
    × ((hash : String)
        → find_store_token_by_hash hash t'
          ≡ found_after 5 token.account_id token.session_id "a1"
              (find_store_token_by_hash hash tables))
find_store_token_by_hash-revoke_store_token_example =
    find_store_token_by_hash-revoke_store_token 5 token.account_id token.session_id "a1" tables
      session_is_held

editor_manages : can_manage_package "p1" "a2" tables ≡ ok true
unfolding can_manage_package can_access package_row is_collaborator grants roles_of through_group
    row_of
editor_manages = refl

can_manage_package-can_view_package_example :
    (can_view_package "p1" "a2" tables ≡ ok true) × (("a2" == "") ≡ false)
can_manage_package-can_view_package_example =
    can_manage_package-can_view_package "p1" "a2" tables editor_manages

-- The revision that a second push makes with the same number.
abbrev second : Revision
second = record revision { id = "other"; version = "2" }

create_revision-create_revision_example :
    (t' : Tables) × (create_revision revision tables ≡ ok t')
    × (get_revision_by_number "p1" revision.revision t' ≡ ok (scanned revision))
    × (create_revision second t' ≡ err duplicate_key)
create_revision-create_revision_example =
    create_revision-create_revision revision second tables refl refl nginx_is_held refl refl
