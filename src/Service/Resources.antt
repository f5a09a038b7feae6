-- ===== src/Service/Resources.antt =====
-- internal/service/resources.go: resources of a package.
use Prim.Native.String.{◌++◌}
use charm_registry.Prelude.{
  ℕ, String, Bool, true, false, some, List, [], ◌∷◌, ◌==◌, ℤ, pos, succ, map, if◌then◌else◌, ◌+◌,
}
use charm_registry.Core.{
  Time, Identity, Upload, Base, ResourceDefinition, ResourceRevision, no_download,
}
use charm_registry.Config.{Config}
use charm_registry.Errors.{Result, ok, map_error, each, ◌>>=◌ as ◌and_then◌}
use charm_registry.Service.Context.{
  Service, World, Action, ◌>>=◌, ◌>>◌, pure, read, write, now, new_uuid, get_blob,
}
use charm_registry.Service.Helpers.{translate_repo_error, first_non_empty, registry_image_name}
use charm_registry.Service.Guards.{
  perm_package_manage_revisions, require_package_view, require_package_manage,
}
use charm_registry.Service.Packages.{package_named}
use charm_registry.Service.Revisions.{status_url}
use charm_registry.Service.Views.{attach_resource_download}

-- PushResourceRequest; the package revision is not used
pub record PushResourceRequest : Type 0 where
  pub upload_id : String
  pub type : String
  pub bases : List Base
  pub architectures : List String

-- One update of UpdateResourceRevisionRequest.
pub record ResourceRevisionUpdate : Type 0 where
  pub revision : ℤ
  pub bases : List Base
  pub architectures : List String

pub record ResourceSummary : Type 0 where
  pub name : String
  pub optional : Bool
  pub revision : ℤ
  pub type : String

-- `currentRevision` of ListResources: the number of the first revision that is listed, or 0.
unfoldable pub current_revision : List ResourceRevision → ℤ
current_revision [] = pos 0
current_revision (rev ∷ revs) = rev.revision

-- `revisionNumber` of PushResource: one more than the first revision that is listed, or 1.
unfoldable pub next_resource_number : List ResourceRevision → ℤ
next_resource_number [] = pos 1
next_resource_number (rev ∷ revs) = succ rev.revision

-- `if resourceRevision.Type == "oci-image" { … }`
unfoldable pub inlined : String → ResourceRevision → ResourceRevision
inlined payload item =
    if item.type == "oci-image"
    then record item {
      oci_image_blob = payload;
      object_key = "";
      size = Prim.Native.String.count payload;
    }
    else item

-- The resource revision of PushResource. The field for SHA3-384 gets the SHA-384 of the payload.
unfoldable pub new_resource_revision :
    Service
    → String
    → ResourceDefinition
    → PushResourceRequest
    → Upload
    → ℤ
    → String
    → Time
    → ResourceRevision
unfolding inlined
new_resource_revision s id def req upload number payload t = inlined payload (record {
  id = id;
  resource_id = def.id;
  name = def.name;
  type = first_non_empty (req.type ∷ def.type ∷ []);
  description = def.description;
  filename = first_non_empty (def.filename ∷ upload.filename ∷ []);
  revision = number;
  created_at = t;
  size = Prim.Native.String.count payload;
  sha256 = upload.sha256;
  sha384 = upload.sha384;
  sha512 = s.runtime.sha512 payload;
  sha3384 = s.runtime.sha384 payload;
  object_key = upload.object_key;
  bases = req.bases;
  architectures = req.architectures;
  oci_image_digest = "";
  oci_image_blob = "";
  download = no_download;
})

-- What OCIImageUploadCredentials and OCIImageBlob hand out.
pub record Credentials : Type 0 where
  pub image_name : String
  pub username : String
  pub password : String

unfoldable pub credentials : Config → String → String → Credentials
credentials cfg charm_name resource_name = record {
  image_name = registry_image_name cfg charm_name resource_name;
  username = cfg.registry_username;
  password = cfg.registry_password;
}

-- OCIImageBlob, before it is written as JSON: the credentials and the digest; the caller's identity
-- is not looked at
unfoldable pub oci_image_blob : Config → Identity → String → String → String → Credentials × String
unfolding credentials
oci_image_blob cfg identity charm_name resource_name digest =
    (credentials cfg charm_name resource_name, digest)

module _ (s : Service) where
  -- `s.repo.GetResourceDefinition` with the error that the methods make of its error.
  unfoldable pub definition_named :
      String → String → String → s.repo.State → Result ResourceDefinition
  definition_named message package_id resource_name db =
      map_error (translate_repo_error message)
        (s.repo.get_resource_definition package_id resource_name db)

  -- One resource of ListResources.
  unfoldable pub resource_summary : s.repo.State → ResourceDefinition → Result ResourceSummary
  unfolding current_revision
  resource_summary db def = s.repo.list_resource_revisions def.id db and_then λ revs. ok (record {
    name = def.name;
    optional = def.optional;
    revision = current_revision revs;
    type = def.type;
  })

  -- ListResources
  unfoldable pub list_resources : Identity → String → s.repo.State → Result (List ResourceSummary)
  unfolding each resource_summary package_named
  list_resources identity charm_name db = package_named s charm_name db and_then λ pkg.
      require_package_view s.repo identity pkg true db and_then λ _.
      s.repo.list_resource_definitions pkg.id db and_then λ defs. each (resource_summary db) defs

  -- PushResource
  unfoldable pub push_resource : Identity → String → String → PushResourceRequest → Action s String
  unfolding read write now new_uuid get_blob pure package_named definition_named
      next_resource_number new_resource_revision
  push_resource identity charm_name resource_name req = do
    pkg ← read (package_named s charm_name)
    read (require_package_manage s.repo identity pkg perm_package_manage_revisions)
    def ← read (definition_named "resource not declared" pkg.id resource_name)
    upload ← read (λ db.
        map_error (translate_repo_error "upload not found") (s.repo.get_upload req.upload_id db))
    payload ← get_blob upload.object_key
    existing ← read (s.repo.list_resource_revisions def.id)
    let number = next_resource_number existing
    t ← now
    id ← new_uuid
    write (
        s.repo.create_resource_revision
          (new_resource_revision s id def req upload number payload t))
    t' ← now
    write (s.repo.approve_upload t' upload.id (some number) [])
    pure (status_url charm_name upload.id)

  -- ListResourceRevisions, with attachResourceDownloads
  unfoldable pub list_resource_revisions :
      Identity → String → String → s.repo.State → Result (List ResourceRevision)
  unfolding package_named definition_named
  list_resource_revisions identity charm_name resource_name db =
      package_named s charm_name db and_then λ pkg.
      require_package_view s.repo identity pkg true db and_then λ _.
      definition_named "resource not found" pkg.id resource_name db and_then λ def.
      s.repo.list_resource_revisions def.id db and_then λ revs.
      ok (map (attach_resource_download s.cfg def.package_id) revs)

  -- One round of UpdateResourceRevisions.
  unfoldable pub update_one : String → ResourceRevisionUpdate → Action s (Unit {0})
  unfolding read write
  update_one resource_id update = do
    item ← read (s.repo.get_resource_revision resource_id update.revision)
    write (
        s.repo.update_resource_revision
          (record item { bases = update.bases; architectures = update.architectures }))

  -- The loop of UpdateResourceRevisions.
  unfoldable pub update_each : String → List ResourceRevisionUpdate → ℕ → Action s ℕ
  unfolding update_one pure
  update_each resource_id [] updated = pure updated
  update_each resource_id (update ∷ updates) updated = do
    update_one resource_id update
    update_each resource_id updates (updated + 1)

  -- UpdateResourceRevisions
  unfoldable pub update_resource_revisions :
      Identity → String → String → List ResourceRevisionUpdate → Action s ℕ
  unfolding read update_each package_named definition_named
  update_resource_revisions identity charm_name resource_name updates = do
    pkg ← read (package_named s charm_name)
    read (require_package_manage s.repo identity pkg perm_package_manage_revisions)
    def ← read (definition_named "resource not found" pkg.id resource_name)
    update_each def.id updates 0

  -- OCIImageUploadCredentials
  unfoldable pub oci_image_upload_credentials :
      Identity → String → String → s.repo.State → Result Credentials
  unfolding package_named definition_named credentials
  oci_image_upload_credentials identity charm_name resource_name db =
      package_named s charm_name db and_then λ pkg.
      require_package_manage s.repo identity pkg perm_package_manage_revisions db and_then λ _.
      definition_named "resource not found" pkg.id resource_name db and_then λ def.
      ok (credentials s.cfg charm_name resource_name)

  -- DownloadResource
  unfoldable pub download_resource : Identity → String → String → ℤ → World s → Result String
  unfolding definition_named
  download_resource identity package_id resource_name number w =
      map_error (translate_repo_error "package not found")
        (s.repo.get_package_by_id package_id w.db)
      and_then λ pkg. require_package_view s.repo identity pkg false w.db and_then λ _.
          definition_named "resource not found" pkg.id resource_name w.db and_then λ def.
          map_error (translate_repo_error "resource revision not found")
            (s.repo.get_resource_revision def.id number w.db)
          and_then λ revision.
              if revision.object_key == ""
              then ok revision.oci_image_blob
              else s.blobs.get revision.object_key w.files
