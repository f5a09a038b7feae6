-- ===== src/Tests/Memory.antt =====
-- The theorems on the in-memory repository, at small states.
use charm_registry.Prelude.{◌≡◌, refl, none, some, List, [], ◌∷◌}
use charm_registry.Prelude.Maps.{lookup, insert, erase}
use charm_registry.Core.{Package, Track}
use charm_registry.Errors.{ok}
use charm_registry.Repo.Memory.State.{Memory, new_memory}
use charm_registry.Repo.Memory.Packages.{
  store_package, drop_package, create_package, update_package, delete_package, create_tracks,
  add_tracks, has_track, store_tracks,
}
use charm_registry.Repo.Memory.Packages.Tracks.{HasDistinctNames, add_tracks-HasDistinctNames}
use charm_registry.Tests.Fixtures.{track, nginx, with_nginx}

created : create_package nginx new_memory ≡ ok (tt, with_nginx)
unfolding create_package store_package lookup insert
created = refl

nginx-fresh : lookup nginx.id new_memory.packages_by_id ≡ none
unfolding lookup
nginx-fresh = refl

nginx-found : lookup nginx.name with_nginx.packages ≡ some nginx
unfolding lookup
nginx-found = refl

updated : update_package nginx with_nginx ≡ ok (tt, with_nginx)
unfolding update_package store_package lookup insert
updated = refl

abbrev emptied : Memory
emptied = new_memory

deleted : delete_package "p1" with_nginx ≡ ok (tt, emptied)
unfolding delete_package drop_package lookup erase
deleted = refl

abbrev nginx_two : Package
nginx_two = record nginx { tracks = track "latest" ∷ track "2.0" ∷ [] }

abbrev with_track : Memory
with_track = record with_nginx {
  packages = ("nginx", nginx_two) ∷ [];
  packages_by_id = ("p1", nginx_two) ∷ [];
}

tracked : create_tracks "p1" (track "latest" ∷ track "2.0" ∷ []) with_nginx ≡ ok (1, with_track)
unfolding create_tracks store_tracks add_tracks has_track lookup insert
tracked = refl

abbrev asked : List Track
asked = track "latest" ∷ track "2.0" ∷ track "2.0" ∷ []

distinct : HasDistinctNames nginx.tracks
unfolding has_track
distinct = (λ taken. taken, tt)

add_tracks-HasDistinctNames_example : HasDistinctNames (add_tracks nginx.tracks asked 0).0
add_tracks-HasDistinctNames_example = add_tracks-HasDistinctNames nginx.tracks asked 0 distinct
