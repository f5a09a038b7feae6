-- ===== src/Repo/Postgres/Releases.antt =====
-- internal/repo/postgres_releases.go
pub mod Agreement
use charm_registry.Prelude.{
  String, Bool, true, false, not, ◌&&◌, Option, none, some, List, [], ◌∷◌, ◌++◌, ◌==◌, leb, find?,
  keep, any, if◌then◌else◌,
}
use charm_registry.Core.{Release}
use charm_registry.Errors.{Result, ok, err, not_found}
use charm_registry.Repo.Postgres.Tables.{
  PackageRow, Tables, package_row, has_package, default_channel, duplicate_key, missing_reference,
}

-- UNIQUE (package_id, channel)
unfoldable pub is_at : String → String → Release → Bool
is_at package_id channel row = row.package_id == package_id && row.channel == channel

-- ON CONFLICT (package_id, channel) DO UPDATE SET: the row keeps its id.
unfoldable pub overwritten : Release → Release → Release
overwritten excluded row = record row {
  revision = excluded.revision;
  base = excluded.base;
  resources = excluded.resources;
  when = excluded.when;
  expiration_date = excluded.expiration_date;
  progressive = excluded.progressive;
}

unfoldable pub overwrite : Release → List Release → List Release
unfolding is_at overwritten
overwrite excluded [] = []
overwrite excluded (row ∷ rows) =
    let rest = overwrite excluded rows in
    if is_at excluded.package_id excluded.channel row
    then overwritten excluded row ∷ rows
    else row ∷ rest

-- The statement of ReplaceRelease, on the row of its arguments.
unfoldable pub upsert : Release → Tables → Result Tables
unfolding overwrite is_at has_package
upsert row t =
    if any (is_at row.package_id row.channel) t.releases
    then ok (record t { releases = overwrite row t.releases })
    else if any (λ other. other.id == row.id) t.releases
    then err duplicate_key
    else if has_package row.package_id t
    then ok (record t { releases = t.releases ++ row ∷ [] })
    else err missing_reference

-- ReplaceRelease
unfoldable pub replace_release : String → Release → Tables → Result Tables
unfolding upsert
replace_release package_id release t = upsert (record release { package_id = package_id }) t

-- rows.Next and scanRelease: the first row, or ErrNotFound.
unfoldable pub first_row : List Release → Result Release
first_row [] = err not_found
first_row (row ∷ rows) = ok row

-- QueryRow and scanRelease, on the row that a key selects.
unfoldable pub found : Option Release → Result Release
found none = err not_found
found (some row) = ok row

-- ResolveRelease
unfoldable pub resolve_release : String → String → Tables → Result Release
unfolding is_at found
resolve_release package_id channel t = found (find? (is_at package_id channel) t.releases)

-- ORDER BY when_created DESC; equal times may come in any order.
unfoldable pub insert_latest : Release → List Release → List Release
insert_latest row [] = row ∷ []
insert_latest row (other ∷ rows) =
    let rest = insert_latest row rows in
    if leb other.when row.when then row ∷ other ∷ rows else other ∷ rest

unfoldable pub latest_first : List Release → List Release
unfolding insert_latest
latest_first [] = []
latest_first (row ∷ rows) = insert_latest row (latest_first rows)

-- The second query of ResolveDefaultRelease.
unfoldable pub latest_release : String → Tables → Result Release
unfolding first_row latest_first
latest_release package_id t =
    first_row (latest_first (keep (λ row. row.package_id == package_id) t.releases))

-- ResolveDefaultRelease
unfoldable pub resolve_default_release : String → Tables → Result Release
unfolding package_row latest_first default_channel is_at latest_release
resolve_default_release package_id t = elim (package_row package_id t) [
  | none ↦ latest_release package_id t
  | some row ↦ elim (latest_first (keep (is_at package_id (default_channel row)) t.releases)) [
    | [] ↦ latest_release package_id t
    | release ∷ rest ↦ ok release
  ]
]

-- ListReleases; the collation of the database orders the channels.
module _ (leb_text : String → String → Bool) where
  unfoldable pub insert_channel : Release → List Release → List Release
  insert_channel row [] = row ∷ []
  insert_channel row (other ∷ rows) =
      let rest = insert_channel row rows in
      if leb_text row.channel other.channel then row ∷ other ∷ rows else other ∷ rest

  unfoldable pub by_channel : List Release → List Release
  unfolding insert_channel
  by_channel [] = []
  by_channel (row ∷ rows) = insert_channel row (by_channel rows)

  unfoldable pub list_releases : String → Tables → Result (List Release)
  unfolding by_channel
  list_releases package_id t =
      ok (by_channel (keep (λ row. row.package_id == package_id) t.releases))
