-- ===== src/Repo/Postgres/Packages/Deletion.antt =====
-- What DeletePackage takes with the package.
use charm_registry.Prelude.{
  String, Bool, true, false, not, Option, none, List, [], ◌∷◌, ◌==◌, ◌≡◌, refl, find?, keep, map,
  inl, inr, if◌then◌else◌, arith, Bool-cases, eq_iff, ap, ◌∙◌,
}
use charm_registry.Core.{Release}
use charm_registry.Errors.{ok, err, not_found}
use charm_registry.Repo.Postgres.Tables.{Tables, TrackRow, PackageRow, package_row, has_package}
use charm_registry.Repo.Postgres.Releases.{is_at, found, resolve_release}
use charm_registry.Repo.Postgres.Tracks.{by_age, track_of, list_tracks}
use charm_registry.Repo.Postgres.Access.{can_access}
use charm_registry.Repo.Postgres.Packages.{
  package_query, first_package, get_package_by_id, cascade, delete_package,
}

keep-keep :
    (package_id : String) (rows : List TrackRow)
    → keep
        (λ row. row.package_id == package_id)
        (keep (λ row. not (row.package_id == package_id)) rows)
      ≡ []
keep-keep package_id [] = refl
keep-keep package_id (row ∷ rows) = ground (arith, keep-keep package_id rows)

package_row-keep :
    (package_id : String) (rows : List PackageRow)
    → find? (λ row. row.id == package_id) (keep (λ row. not (row.id == package_id)) rows) ≡ none
package_row-keep package_id [] = refl
package_row-keep package_id (row ∷ rows) = ground (arith, package_row-keep package_id rows)

package_query-keep :
    (package_id : String) (t : Tables) (rows : List PackageRow)
    → package_query (λ row. row.id == package_id) (keep (λ row. not (row.id == package_id)) rows) t
      ≡ []
unfolding package_query
package_query-keep package_id t [] = refl
package_query-keep package_id t (row ∷ rows) = elim (Bool-cases (row.id == package_id)) [
  | inl here ↦ rw here (package_query-keep package_id t rows)
  | inr away ↦ rw (away, away) (package_query-keep package_id t rows)
]

find?-keep :
    (package_id other channel : String) (rows : List Release)
    → find? (is_at other channel) (keep (λ row. not (row.package_id == package_id)) rows)
      ≡ (if package_id == other then none else find? (is_at other channel) rows)
unfolding is_at
find?-keep package_id other channel [] = ground arith
find?-keep package_id other channel (row ∷ rows) = ground (
  arith,
  find?-keep package_id other channel rows,
  eq_iff row.package_id package_id,
  eq_iff row.package_id other,
  eq_iff package_id other,
)

found-unless :
    (gone : Bool) (row : Option Release)
    → found (if gone then none else row) ≡ (if gone then err not_found else found row)
unfolding found
found-unless true row = refl
found-unless false row = refl

no_access :
    (manage : Bool) (package_id account_id : String) (t : Tables)
    → package_row package_id t ≡ none
    → can_access manage package_id account_id t ≡ err not_found
unfolding can_access
no_access manage package_id account_id t missing = ground arith

-- DeletePackage of a package that exists succeeds; afterwards the package is found no more by its
-- id, nobody has access to it, it has neither tracks nor releases, and the releases of every
-- other package are as before.
pub delete_package-cascades :
    (package_id : String) (t : Tables)
    → has_package package_id t ≡ true
    → (t' : Tables) × (delete_package package_id t ≡ ok t')
      × (get_package_by_id package_id t' ≡ err not_found)
      × (list_tracks package_id t' ≡ ok [])
      × ((manage : Bool) (account_id : String)
          → can_access manage package_id account_id t' ≡ err not_found)
      × ((other channel : String)
          → resolve_release other channel t'
            ≡ (if package_id == other then err not_found else resolve_release other channel t))
unfolding delete_package get_package_by_id list_tracks resolve_release package_row cascade
delete_package-cascades package_id t held = (
  cascade package_id t,
  rw held refl,
  ap first_package (package_query-keep package_id (cascade package_id t) t.packages),
  ap (λ rows. ok (by_age (map track_of rows))) (keep-keep package_id t.tracks),
  λ manage account_id.
      no_access manage package_id account_id (cascade package_id t)
        (package_row-keep package_id t.packages),
  λ other channel.
      ap found (find?-keep package_id other channel t.releases)
      ∙ found-unless (package_id == other) (find? (is_at other channel) t.releases),
)
