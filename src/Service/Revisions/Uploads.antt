-- ===== src/Service/Revisions/Uploads.antt =====
-- Uploads, on the repository and the blob store in memory.
use charm_registry.Prelude.{String, ◌≡◌, refl, eq_iff, arith, [], ◌∷◌, ◌+◌}
use charm_registry.Prelude.Maps.{lookup-insert}
use charm_registry.Core.{Upload}
use charm_registry.Config.{Config}
use charm_registry.Errors.{ok}
use charm_registry.Text.FilePath.{join}
use charm_registry.Blob.{memory_store, memory_put, memory_get}
use charm_registry.Repo.Memory.{memory_repository}
use charm_registry.Repo.Memory.State.{Platform}
use charm_registry.Repo.Memory.Accounts.{find}
use charm_registry.Repo.Memory.Revisions.{create_upload as repo_create_upload, get_upload}
use charm_registry.Service.Context.{
  Service, Runtime, World, ◌>>=◌, pure, write, now, new_uuid, put_blob,
}
use charm_registry.Service.Revisions.{create_upload, pending_upload}

-- The service on the repository and the blob store in memory.
abbrev pub in_memory : Config → Runtime → Platform → Service
in_memory cfg runtime order = record {
  cfg = cfg;
  repo = memory_repository order;
  blobs = memory_store;
  runtime = runtime;
}

-- CreateUpload on the stores in memory succeeds; the payload is then found under the upload's object
-- key, and the upload under its ID, with the status "pending" and the file name that was given.
pub create_upload_stored :
    (cfg : Config) (runtime : Runtime) (order : Platform) (filename payload : String)
    (w : World (in_memory cfg runtime order))
    → let s = in_memory cfg runtime order in
      (upload : Upload) × (v : World s) × (create_upload s filename payload w ≡ (ok upload, v))
      × (memory_get upload.object_key v.files ≡ ok payload)
      × (get_upload upload.id v.db ≡ ok upload)
      × (upload.status ≡ "pending")
      × (upload.filename ≡ filename)
unfolding create_upload ◌>>=◌ pure write now new_uuid put_blob memory_put memory_get
    repo_create_upload get_upload find pending_upload
create_upload_stored cfg runtime order filename payload w =
    let s = in_memory cfg runtime order in
    let id = runtime.uuid (w.calls + 1) in
    let key = join ("uploads" ∷ id ∷ filename ∷ []) in
    let upload = pending_upload s id filename key payload (runtime.clock w.calls) in
    (
      upload,
      (create_upload s filename payload w).1,
      refl,
      ground (arith, lookup-insert key key payload w.files, eq_iff key key),
      ground (arith, lookup-insert id id upload w.db.uploads, eq_iff id id),
      refl,
      refl,
    )
