-- ===== src/Tests/Publications.antt =====
-- The publication of a revision, for a small registry in memory.
use charm_registry.Prelude.{String, ◌≡◌, refl, false, none, [], ◌∷◌}
use charm_registry.Prelude.Maps.{lookup}
use charm_registry.Core.{Upload, CharmArchive, Revision, other}
use charm_registry.Errors.{ok}
use charm_registry.Repo.Memory.Revisions.{
  get_latest_revision, revisions_of, create_revision, approve_upload,
}
use charm_registry.Repo.Memory.Packages.{update_package}
use charm_registry.Repo.Memory.Resources.{upsert_resource_definition}
use charm_registry.Service.Context.{World, ◌>>=◌}
use charm_registry.Service.Revisions.{next_number, publish_revision, described, status_url}
use charm_registry.Service.Revisions.Numbering.{IsNumbered}
use charm_registry.Service.Revisions.Publication.{HasPublished, publish_revision-HasPublished}
use charm_registry.Service.Revisions.Uploads.{in_memory}
use charm_registry.Tests.Fixtures.{in_order, config, runtime, owner, nginx, with_nginx}

abbrev upload : Upload
upload = record {
  id = "up";
  filename = "nginx.charm";
  object_key = "uploads/up/nginx.charm";
  size = 5;
  sha256 = "s256";
  sha384 = "s384";
  status = "pending";
  kind = "revision";
  created_at = 1;
  approved_at = none;
  revision = none;
  errors = [];
}

abbrev archive : CharmArchive
archive = record {
  metadata_yaml = "name: nginx";
  manifest_yaml = "";
  config_yaml = "";
  actions_yaml = "";
  bundle_yaml = "";
  readme_md = "";
  manifest = record {
    name = "nginx";
    display_name = "";
    summary = "";
    description = "";
    docs = "";
    issues = "";
    source = "";
    website = other;
    subordinate = false;
    bases = [];
    resources =
        (
          "image",
          record { type = "oci-image"; description = ""; filename = ""; upstream_source = "" },
        )
        ∷ [];
    containers = [];
    provides = [];
    requires = [];
    peers = [];
    assumes = other;
  };
}

abbrev before : World (in_memory config runtime in_order)
before = record { db = record with_nginx { uploads = ("up", upload) ∷ [] }; files = []; calls = 0 }

abbrev url : String
url = "/v1/charm/nginx/revisions/review?upload-id=up"

abbrev published : World (in_memory config runtime in_order)
published =
    (publish_revision (in_memory config runtime in_order) owner "nginx" nginx upload archive
      before).1

publishing :
    publish_revision (in_memory config runtime in_order) owner "nginx" nginx upload archive before
    ≡ (ok url, published)
unfolding publish_revision ◌>>=◌ get_latest_revision lookup create_revision approve_upload
    update_package described upsert_resource_definition status_url
publishing = refl

before-IsNumbered : IsNumbered before.db
unfolding revisions_of lookup
before-IsNumbered package_id = tt

publish_revision-HasPublished_example :
    (r : Revision) × (next_number (get_latest_revision "p1" before.db) ≡ ok r.revision)
    × HasPublished "p1" r published.db
    × (r.package_id ≡ "p1")
    × (r.object_key ≡ "uploads/up/nginx.charm")
publish_revision-HasPublished_example =
    publish_revision-HasPublished config runtime in_order owner "nginx" url nginx upload archive
      before published before-IsNumbered publishing
