-- ===== src/Service/Revisions.antt =====
-- internal/service/revisions.go: uploads and charm revisions.
pub mod Numbering
pub mod Uploads
pub mod Publication
use Prim.Native.String.{◌++◌}
use charm_registry.Prelude.{
  ℕ, String, Bool, true, false, Option, none, some, List, [], ◌∷◌, ◌==◌, ℤ, pos, succ, is_empty,
  if◌then◌else◌,
}
use charm_registry.Prelude.Maps.{Map}
use charm_registry.Core.{
  Time, Identity, Package, Upload, ApiError, Revision, ResourceDefinition, CharmArchive,
  CharmResourceDeclaration,
}
use charm_registry.Errors.{
  Result, ok, err, new_error, map_error, Error, service, not_found, conflict, failure,
  ◌>>=◌ as ◌and_then◌,
}
use charm_registry.Text.Decimal.{itoa}
use charm_registry.Text.FilePath.{join}
use charm_registry.Charm.{parse_archive, extract_websites}
use charm_registry.Service.Context.{
  Service, World, Action, ◌>>=◌, ◌>>◌, pure, read, write, lift, now, new_uuid, put_blob, get_blob,
  ignore,
}
use charm_registry.Service.Helpers.{
  translate_repo_error, detect_upload_kind, extract_bases, first_non_empty, string_ptr,
}
use charm_registry.Service.Links.{merge_links}
use charm_registry.Service.Guards.{
  perm_package_manage_revisions, require_package_view, require_package_manage,
}
use charm_registry.Service.Packages.{package_named}

-- The upload of CreateUpload. A payload's length counts its characters, which are bytes here.
unfoldable pub pending_upload : Service → String → String → String → String → Time → Upload
pending_upload s upload_id filename key payload t = record {
  id = upload_id;
  filename = filename;
  object_key = key;
  size = Prim.Native.String.count payload;
  sha256 = s.runtime.sha256 payload;
  sha384 = s.runtime.sha384 payload;
  status = "pending";
  kind = detect_upload_kind filename;
  created_at = t;
  approved_at = none;
  revision = none;
  errors = [];
}

-- The number of the next revision in PushRevision: an error other than ErrNotFound is passed on.
unfoldable pub next_number : Result Revision → Result ℤ
next_number (ok latest) = ok (succ latest.revision)
next_number (err not_found) = ok (pos 1)
next_number (err e) = err e

-- The revision of PushRevision.
unfoldable pub new_revision :
    String → Package → Identity → ℤ → Upload → CharmArchive → Time → Revision
new_revision id pkg identity number upload archive t = record {
  id = id;
  package_id = pkg.id;
  revision = number;
  version = itoa number;
  status = "approved";
  created_at = t;
  created_by = identity.account.id;
  size = upload.size;
  sha256 = upload.sha256;
  sha384 = upload.sha384;
  object_key = upload.object_key;
  metadata_yaml = archive.metadata_yaml;
  config_yaml = archive.config_yaml;
  actions_yaml = archive.actions_yaml;
  bundle_yaml = archive.bundle_yaml;
  readme_md = archive.readme_md;
  bases = extract_bases archive.manifest;
  attributes = ("framework", "operator") ∷ ("language", "unknown") ∷ [];
  relations =
      ("provides", archive.manifest.provides)
      ∷ ("requires", archive.manifest.requires)
      ∷ ("peers", archive.manifest.peers)
      ∷ [];
  subordinate = archive.manifest.subordinate;
  resources = [];
}

-- `if len(websites) > 0 { pkg.Website = &websites[0] }`
unfoldable pub first_website : List String → Option String → Option String
first_website [] old = old
first_website (website ∷ websites) old = some website

-- The assignments to the package in PushRevision.
unfoldable pub described : CharmArchive → Time → Package → Package
unfolding first_website
described archive t pkg =
    let manifest = archive.manifest in
    let websites = extract_websites manifest.website in
    record pkg {
      status = "published";
      title = string_ptr (first_non_empty (manifest.display_name ∷ manifest.name ∷ pkg.name ∷ []));
      summary = string_ptr manifest.summary;
      description = string_ptr manifest.description;
      links = merge_links pkg.links manifest.docs manifest.issues manifest.source websites;
      website = first_website websites pkg.website;
      updated_at = t;
    }

-- The definition that PushRevision makes of a declared resource.
unfoldable pub declared :
    String → String → String → CharmResourceDeclaration → Time → ResourceDefinition
declared id package_id name resource t = record {
  id = id;
  package_id = package_id;
  name = name;
  type = resource.type;
  description = resource.description;
  filename = resource.filename;
  optional = false;
  created_at = t;
}

-- The status URL of PushRevision and PushResource.
unfoldable pub status_url : String → String → String
status_url charm_name upload_id =
    "/v1/charm/" ++ charm_name ++ "/revisions/review?upload-id=" ++ upload_id

-- The message of an error.
unfoldable pub error_text : Error → String
error_text (service e) = e.code ++ ": " ++ e.message
error_text not_found = "not found"
error_text conflict = "conflict"
error_text (failure text) = text

-- What ReviewUpload answers.
pub record ReviewView : Type 0 where
  pub errors : List ApiError
  pub revision : Option ℤ
  pub status : String
  pub upload_id : String

unfoldable pub review_view : Upload → ReviewView
review_view upload = record {
  errors = upload.errors;
  revision = upload.revision;
  status = upload.status;
  upload_id = upload.id;
}

module _ (s : Service) where
  -- CreateUpload
  unfoldable pub create_upload : String → String → Action s Upload
  unfolding now new_uuid put_blob write pure pending_upload
  create_upload filename payload = do
    t ← now
    upload_id ← new_uuid
    let key = join ("uploads" ∷ upload_id ∷ filename ∷ [])
    put_blob key payload "application/octet-stream"
    let upload = pending_upload s upload_id filename key payload t
    write (s.repo.create_upload upload)
    pure upload

  -- The branch of PushRevision for an archive that is not parsed; the outcome of the review is
  -- dropped.
  unfoldable pub reject_upload : {A : Type 0} → Upload → Error → Action s A
  unfolding now write ignore lift
  reject_upload upload e = do
    t ← now
    ignore (
        write (
          s.repo.approve_upload t upload.id none
            (record { code = "invalid-archive"; message = error_text e } ∷ [])))
    lift (err (new_error 400 "invalid-archive" (error_text e)))

  -- The loop of PushRevision over the resources.
  unfoldable pub declare_resources :
      String → Time → Map CharmResourceDeclaration → Action s (Unit {0})
  unfolding new_uuid write pure declared
  declare_resources package_id t [] = pure tt
  declare_resources package_id t ((name, resource) ∷ rest) = do
    id ← new_uuid
    stored ← write (s.repo.upsert_resource_definition (declared id package_id name resource t))
    declare_resources package_id t rest

  -- PushRevision, from the parsed archive on
  unfoldable pub publish_revision :
      Identity → String → Package → Upload → CharmArchive → Action s String
  unfolding now new_uuid read write lift pure next_number declare_resources
  publish_revision identity charm_name pkg upload archive = do
    number ← read (λ db. next_number (s.repo.get_latest_revision pkg.id db))
    t ← now
    id ← new_uuid
    write (s.repo.create_revision (new_revision id pkg identity number upload archive t))
    t' ← now
    write (s.repo.approve_upload t' upload.id (some number) [])
    write (s.repo.update_package (described archive t pkg))
    declare_resources pkg.id t (s.runtime.visit_resources archive.manifest.resources)
    pure (status_url charm_name upload.id)

  unfoldable pub publish_or_reject :
      Identity → String → Package → Upload → Result CharmArchive → Action s String
  unfolding publish_revision reject_upload
  publish_or_reject identity charm_name pkg upload (ok archive) =
      publish_revision identity charm_name pkg upload archive
  publish_or_reject identity charm_name pkg upload (err e) = reject_upload upload e

  -- PushRevision of the upload with the given ID
  unfoldable pub push_revision : Identity → String → String → Action s String
  unfolding read get_blob publish_or_reject package_named
  push_revision identity charm_name upload_id = do
    pkg ← read (package_named s charm_name)
    read (require_package_manage s.repo identity pkg perm_package_manage_revisions)
    upload ←
        read (λ db.
          map_error (translate_repo_error "upload not found") (s.repo.get_upload upload_id db))
    payload ← get_blob upload.object_key
    publish_or_reject identity charm_name pkg upload (parse_archive s.runtime.decoders payload)

  -- ReviewUpload
  unfoldable pub review_upload : Identity → String → String → s.repo.State → Result ReviewView
  unfolding package_named review_view
  review_upload identity charm_name upload_id db = package_named s charm_name db and_then λ pkg.
      require_package_view s.repo identity pkg true db and_then λ _.
      map_error (translate_repo_error "upload not found") (s.repo.get_upload upload_id db)
      and_then λ upload. ok (review_view upload)

  -- ListRevisions
  unfoldable pub list_revisions :
      Identity → String → Option ℤ → s.repo.State → Result (List Revision)
  unfolding package_named
  list_revisions identity charm_name revision db = package_named s charm_name db and_then λ pkg.
      require_package_view s.repo identity pkg true db and_then λ _.
      s.repo.list_revisions pkg.id revision db

  -- DownloadCharm
  unfoldable pub download_charm : Identity → String → ℤ → World s → Result String
  download_charm identity package_id number w =
      map_error (translate_repo_error "package not found")
        (s.repo.get_package_by_id package_id w.db)
      and_then λ pkg. require_package_view s.repo identity pkg false w.db and_then λ _.
          map_error (translate_repo_error "revision not found")
            (s.repo.get_revision_by_number pkg.id number w.db)
          and_then λ revision. s.blobs.get revision.object_key w.files
