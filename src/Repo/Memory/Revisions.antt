-- ===== src/Repo/Memory/Revisions.antt =====
-- Uploads and charm revisions of the in-memory repository.
use charm_registry.Prelude.{
  String, Option, none, some, List, [], ◌∷◌, ◌++◌, ℤ, eq_int, find?, get_last?, is_empty,
  if◌then◌else◌,
}
use charm_registry.Prelude.Maps.{lookup, insert}
use charm_registry.Core.{Time, Upload, ApiError, Revision}
use charm_registry.Errors.{Result, ok, err, not_found}
use charm_registry.Repo.Memory.State.{Memory, slice_or_nil}
use charm_registry.Repo.Memory.Accounts.{find}

-- CreateUpload
unfoldable pub create_upload : Upload → Memory → Result (Unit {0} × Memory)
create_upload upload m = ok (tt, record m { uploads = insert upload.id upload m.uploads })

-- GetUpload
unfoldable pub get_upload : String → Memory → Result Upload
unfolding find
get_upload upload_id m = find upload_id m.uploads

-- The assignments of ApproveUpload.
abbrev pub reviewed : Time → Option ℤ → List ApiError → Upload → Upload
reviewed now revision errors upload = record upload {
  approved_at = some now;
  errors = errors;
  status = if is_empty errors then "approved" else "rejected";
  revision = revision;
}

-- ApproveUpload; `now` is its time.Now
unfoldable pub approve_upload :
    Time → String → Option ℤ → List ApiError → Memory → Result (Unit {0} × Memory)
approve_upload now upload_id revision errors m = elim (lookup upload_id m.uploads) [
  | none ↦ err not_found
  | some upload ↦
      ok (
        tt,
        record m { uploads = insert upload_id (reviewed now revision errors upload) m.uploads },
      )
]

-- m.revisions[packageID]
unfoldable pub revisions_of : String → Memory → List Revision
revisions_of package_id m = slice_or_nil (lookup package_id m.revisions)

-- CreateRevision
unfoldable pub create_revision : Revision → Memory → Result (Unit {0} × Memory)
unfolding revisions_of
create_revision revision m = ok (
  tt,
  record m {
    revisions =
        insert revision.package_id (revisions_of revision.package_id m ++ revision ∷ [])
          m.revisions;
  },
)

-- GetRevisionByNumber
unfoldable pub get_revision_by_number : String → ℤ → Memory → Result Revision
unfolding revisions_of
get_revision_by_number package_id number m =
    elim (find? (λ item. eq_int item.revision number) (revisions_of package_id m)) [
      | none ↦ err not_found
      | some item ↦ ok item
    ]

-- ListRevisions
unfoldable pub list_revisions : String → Option ℤ → Memory → Result (List Revision)
unfolding revisions_of
list_revisions package_id none m = ok (revisions_of package_id m)
list_revisions package_id (some number) m =
    elim (find? (λ item. eq_int item.revision number) (revisions_of package_id m)) [
      | none ↦ err not_found
      | some item ↦ ok (item ∷ [])
    ]

-- GetLatestRevision
unfoldable pub get_latest_revision : String → Memory → Result Revision
unfolding revisions_of
get_latest_revision package_id m = elim (get_last? (revisions_of package_id m)) [
  | none ↦ err not_found
  | some item ↦ ok item
]
