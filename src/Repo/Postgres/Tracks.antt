-- ===== src/Repo/Postgres/Tracks.antt =====
-- internal/repo/postgres_tracks.go
use charm_registry.Prelude.{
  ℕ, ◌+◌, String, Bool, ◌&&◌, List, [], ◌∷◌, ◌++◌, ◌==◌, leb, keep, any, map, if◌then◌else◌,
}
use charm_registry.Core.{Track}
use charm_registry.Errors.{Result, ok, err}
use charm_registry.Repo.Postgres.Tables.{TrackRow, Tables, has_package, missing_reference}

-- PRIMARY KEY (package_id, name)
unfoldable pub is_track : String → String → TrackRow → Bool
is_track package_id name row = row.package_id == package_id && row.name == name

abbrev pub track_row : String → Track → TrackRow
track_row package_id track = record {
  package_id = package_id;
  name = track.name;
  version_pattern = track.version_pattern;
  automatic_phasing_percentage = track.automatic_phasing_percentage;
  created_at = track.created_at;
}

-- The loop of CreateTracks: the rows, how many were added, and whether a statement failed. A row
-- with the key of another is left out, a row without its package is refused.
unfoldable pub insert_tracks :
    Bool → String → List Track → List TrackRow → ℕ → Result (ℕ × List TrackRow)
unfolding is_track
insert_tracks has_owner package_id [] rows created = ok (created, rows)
insert_tracks has_owner package_id (track ∷ tracks) rows created =
    let present = any (is_track package_id track.name) rows in
    let rest =
      insert_tracks has_owner package_id tracks
        (if present then rows else rows ++ track_row package_id track ∷ [])
        (if present then created else created + 1) in
    if present then rest else if has_owner then rest else err missing_reference

-- CreateTracks
unfoldable pub create_tracks : String → List Track → Tables → Result (ℕ × Tables)
unfolding insert_tracks has_package
create_tracks package_id tracks t =
    elim (insert_tracks (has_package package_id t) package_id tracks t.tracks 0) [
      | err failed ↦ err failed
      | ok (created, rows) ↦ ok (created, record t { tracks = rows })
    ]

-- One iteration of the loop of ListTracks.
abbrev pub track_of : TrackRow → Track
track_of row = record {
  name = row.name;
  version_pattern = row.version_pattern;
  automatic_phasing_percentage = row.automatic_phasing_percentage;
  created_at = row.created_at;
}

-- ORDER BY created_at ASC; equal times may come in any order.
unfoldable pub insert_by_age : Track → List Track → List Track
insert_by_age track [] = track ∷ []
insert_by_age track (other ∷ tracks) =
    let rest = insert_by_age track tracks in
    if leb track.created_at other.created_at then track ∷ other ∷ tracks else other ∷ rest

unfoldable pub by_age : List Track → List Track
unfolding insert_by_age
by_age [] = []
by_age (track ∷ tracks) = insert_by_age track (by_age tracks)

-- ListTracks
unfoldable pub list_tracks : String → Tables → Result (List Track)
unfolding by_age
list_tracks package_id t =
    ok (by_age (map track_of (keep (λ row. row.package_id == package_id) t.tracks)))
