-- ===== src/Repo/Postgres/Revisions.antt =====
-- internal/repo/postgres_revisions.go: uploads and charm revisions. `now` is the server's NOW().
pub mod Numbers
use charm_registry.Prelude.{
  String, Bool, true, false, ◌||◌, ◌&&◌, Option, none, some, List, [], ◌∷◌, ◌++◌, ◌==◌, ℤ, pos,
  negsuc, eq_int, leb, find?, keep, any, map, is_empty, if◌then◌else◌,
}
use charm_registry.Core.{Time, Upload, ApiError, Revision}
use charm_registry.Errors.{Result, ok, err, not_found}
use charm_registry.Repo.Postgres.Tables.{Tables, has_package, duplicate_key, missing_reference}

-- CreateUpload
unfoldable pub create_upload : Upload → Tables → Result Tables
create_upload upload t =
    if any (λ row. row.id == upload.id) t.uploads
    then err duplicate_key
    else ok (record t { uploads = t.uploads ++ upload ∷ [] })

-- GetUpload
unfoldable pub get_upload : String → Tables → Result Upload
get_upload upload_id t = elim (find? (λ row. row.id == upload_id) t.uploads) [
  | none ↦ err not_found
  | some row ↦ ok row
]

-- The SET of ApproveUpload.
unfoldable pub reviewed_rows : Time → String → Option ℤ → List ApiError → List Upload → List Upload
reviewed_rows now upload_id revision errors [] = []
reviewed_rows now upload_id revision errors (row ∷ rows) =
    (if row.id == upload_id
      then record row {
        approved_at = some now;
        revision = revision;
        errors = errors;
        status = if is_empty errors then "approved" else "rejected";
      }
      else row)
    ∷ reviewed_rows now upload_id revision errors rows

-- ApproveUpload
unfoldable pub approve_upload : Time → String → Option ℤ → List ApiError → Tables → Result Tables
unfolding reviewed_rows
approve_upload now upload_id revision errors t =
    if any (λ row. row.id == upload_id) t.uploads
    then ok (record t { uploads = reviewed_rows now upload_id revision errors t.uploads })
    else err not_found

-- UNIQUE (package_id, revision)
unfoldable pub is_numbered : String → ℤ → Revision → Bool
is_numbered package_id number row = row.package_id == package_id && eq_int row.revision number

-- CreateRevision
unfoldable pub create_revision : Revision → Tables → Result Tables
unfolding is_numbered has_package
create_revision revision t =
    if any (is_numbered revision.package_id revision.revision) t.revisions
    then err duplicate_key
    else if any (λ row. row.id == revision.id) t.revisions
    then err duplicate_key
    else if has_package revision.package_id t
    then ok (record t { revisions = t.revisions ++ revision ∷ [] })
    else err missing_reference

-- The order of integers.
abbrev pub leb_int : ℤ → ℤ → Bool
leb_int (pos m) (pos n) = leb m n
leb_int (pos m) (negsuc n) = false
leb_int (negsuc m) (pos n) = true
leb_int (negsuc m) (negsuc n) = leb n m

-- ORDER BY revision DESC
unfoldable pub insert_newest : Revision → List Revision → List Revision
insert_newest row [] = row ∷ []
insert_newest row (other ∷ rows) =
    let rest = insert_newest row rows in
    if leb_int other.revision row.revision then row ∷ other ∷ rows else other ∷ rest

unfoldable pub newest_first : List Revision → List Revision
unfolding insert_newest
newest_first [] = []
newest_first (row ∷ rows) = insert_newest row (newest_first rows)

-- One iteration of scanRevisions, which leaves the resources out.
abbrev pub scanned : Revision → Revision
scanned row = record row { resources = [] }

-- The WHERE of ListRevisions.
unfoldable pub is_asked : String → Option ℤ → Revision → Bool
unfolding is_numbered
is_asked package_id none row = row.package_id == package_id
is_asked package_id (some number) row = is_numbered package_id number row

-- ListRevisions
unfoldable pub list_revisions : String → Option ℤ → Tables → Result (List Revision)
unfolding newest_first is_asked
list_revisions package_id revision t =
    ok (map scanned (newest_first (keep (is_asked package_id revision) t.revisions)))

-- rows[0], or ErrNotFound.
unfoldable pub first_revision : Result (List Revision) → Result Revision
first_revision (err failed) = err failed
first_revision (ok []) = err not_found
first_revision (ok (row ∷ rows)) = ok row

-- GetRevisionByNumber
unfoldable pub get_revision_by_number : String → ℤ → Tables → Result Revision
unfolding list_revisions first_revision
get_revision_by_number package_id revision t =
    first_revision (list_revisions package_id (some revision) t)

-- GetLatestRevision
unfoldable pub get_latest_revision : String → Tables → Result Revision
unfolding list_revisions first_revision
get_latest_revision package_id t = first_revision (list_revisions package_id none t)
