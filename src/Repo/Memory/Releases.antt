-- ===== src/Repo/Memory/Releases.antt =====
-- Releases of the in-memory repository.
use charm_registry.Prelude.{String, none, some, List, [], ◌∷◌}
use charm_registry.Prelude.Maps.{Map, lookup, insert}
use charm_registry.Core.{Release}
use charm_registry.Errors.{Result, ok, err, not_found}
use charm_registry.Repo.Memory.State.{Memory, Platform, slice_or_nil}
use charm_registry.Repo.Memory.Accounts.{find, values}

-- m.releases[packageID]: a missing map is read as an empty one.
unfoldable pub releases_of : String → Memory → Map Release
releases_of package_id m = slice_or_nil (lookup package_id m.releases)

-- ReplaceRelease
unfoldable pub replace_release : String → Release → Memory → Result (Unit {0} × Memory)
unfolding releases_of
replace_release package_id release m = ok (
  tt,
  record m {
    releases =
        insert package_id (insert release.channel release (releases_of package_id m)) m.releases;
  },
)

-- ResolveRelease
unfoldable pub resolve_release : String → String → Memory → Result Release
unfolding releases_of find
resolve_release package_id channel m = find channel (releases_of package_id m)

-- The first release of a loop over the map.
first_release : List Release → Result Release
first_release [] = err not_found
first_release (release ∷ rest) = ok release

module _ (order : Platform) where
  -- ListReleases
  unfoldable pub list_releases : String → Memory → Result (List Release)
  unfolding releases_of
  list_releases package_id m = ok (values (order.visit (releases_of package_id m)))

  -- ResolveDefaultRelease
  unfoldable pub resolve_default_release : String → Memory → Result Release
  unfolding releases_of first_release
  resolve_default_release package_id m = elim (lookup "latest/stable" (releases_of package_id m)) [
    | some release ↦ ok release
    | none ↦ first_release (values (order.visit (releases_of package_id m)))
  ]
