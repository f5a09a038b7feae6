-- ===== src/Repo/Memory/Packages.antt =====
-- Packages and tracks of the in-memory repository.
pub mod Index
pub mod Tracks
pub mod Catalogue
pub mod Refinement
use Prim.Native.Char.{Char}
use charm_registry.Prelude.{
  ℕ, zero, suc, ◌+◌, String, Bool, true, false, not, ◌||◌, Option, none, some, List, [], ◌∷◌, ◌++◌,
  ◌==◌, keep, any, if◌then◌else◌,
}
use charm_registry.Prelude.Maps.{Map, lookup, insert, erase}
use charm_registry.Core.{Package, Track}
use charm_registry.Errors.{Result, ok, err, not_found, conflict}
use charm_registry.Text.{trim_space, to_lower, contains_text}
use charm_registry.Repo.Memory.State.{Memory, Platform}
use charm_registry.Repo.Memory.Accounts.{find, values}

-- The two assignments by which a method stores a package.
unfoldable pub store_package : Package → Memory → Memory
store_package pkg m = record m {
  packages = insert pkg.name pkg m.packages;
  packages_by_id = insert pkg.id pkg m.packages_by_id;
}

-- CreatePackage
unfoldable pub create_package : Package → Memory → Result (Unit {0} × Memory)
unfolding store_package
create_package pkg m = elim (lookup pkg.name m.packages) [
  | some existing ↦ err conflict
  | none ↦ ok (tt, store_package pkg m)
]

-- UpdatePackage
unfoldable pub update_package : Package → Memory → Result (Unit {0} × Memory)
unfolding store_package
update_package pkg m = elim (lookup pkg.name m.packages) [
  | none ↦ err not_found
  | some existing ↦ ok (tt, store_package pkg m)
]

-- The two deletions of DeletePackage.
unfoldable pub drop_package : String → Package → Memory → Memory
drop_package package_id pkg m = record m {
  packages_by_id = erase package_id m.packages_by_id;
  packages = erase pkg.name m.packages;
}

-- DeletePackage
unfoldable pub delete_package : String → Memory → Result (Unit {0} × Memory)
unfolding drop_package
delete_package package_id m = elim (lookup package_id m.packages_by_id) [
  | none ↦ err not_found
  | some pkg ↦ ok (tt, drop_package package_id pkg m)
]

-- GetPackageByName
unfoldable pub get_package_by_name : String → Memory → Result Package
unfolding find
get_package_by_name name m = find name m.packages

-- GetPackageByID
unfoldable pub get_package_by_id : String → Memory → Result Package
unfolding find
get_package_by_id package_id m = find package_id m.packages_by_id

-- CanViewPackage
unfoldable pub can_view_package : String → String → Memory → Result Bool
can_view_package package_id account_id m = elim (lookup package_id m.packages_by_id) [
  | none ↦ err not_found
  | some pkg ↦ ok (not pkg.private || pkg.owner_account_id == account_id)
]

-- CanManagePackage
unfoldable pub can_manage_package : String → String → Memory → Result Bool
can_manage_package package_id account_id m = elim (lookup package_id m.packages_by_id) [
  | none ↦ err not_found
  | some pkg ↦ ok (pkg.owner_account_id == account_id)
]

-- The inner loop of CreateTracks.
unfoldable pub has_track : String → List Track → Bool
has_track name tracks = any (λ existing. existing.name == name) tracks

-- The outer loop of CreateTracks: the tracks of the package, and how many were added.
unfoldable pub add_tracks : List Track → List Track → ℕ → List Track × ℕ
add_tracks existing [] created = (existing, created)
add_tracks existing (track ∷ tracks) created =
    let present = has_track track.name existing in
    add_tracks (if present then existing else existing ++ track ∷ []) tracks
      (if present then created else created + 1)

-- The two assignments by which CreateTracks stores the package.
unfoldable pub store_tracks : String → Package → Memory → Memory
store_tracks package_id pkg m = record m {
  packages_by_id = insert package_id pkg m.packages_by_id;
  packages = insert pkg.name pkg m.packages;
}

-- CreateTracks
unfoldable pub create_tracks : String → List Track → Memory → Result (ℕ × Memory)
unfolding add_tracks has_track store_tracks
create_tracks package_id tracks m = elim (lookup package_id m.packages_by_id) [
  | none ↦ err not_found
  | some pkg ↦
      let (all, created) = add_tracks pkg.tracks tracks 0 in
      ok (created, store_tracks package_id (record pkg { tracks = all }) m)
]

-- ListTracks
unfoldable pub list_tracks : String → Memory → Result (List Track)
list_tracks package_id m = elim (lookup package_id m.packages_by_id) [
  | none ↦ err not_found
  | some pkg ↦ ok pkg.tracks
]

-- The filter of SearchPackages, with the needle in lower case.
unfoldable pub matches : (Char → Char) → String → Package → Bool
matches others needle pkg = needle == "" || contains_text (to_lower others pkg.name) needle

module _ (order : Platform) where
  -- ListPackagesForAccount
  unfoldable pub list_packages_for_account : String → Bool → Memory → Result (List Package)
  list_packages_for_account account_id include_collaborations m =
      ok (keep (λ pkg. pkg.owner_account_id == account_id) (values (order.visit m.packages)))

  -- SearchPackages
  unfoldable pub search_packages : String → Memory → Result (List Package)
  unfolding matches
  search_packages query m =
      let needle = to_lower order.lower_case (trim_space query) in
      ok (keep (matches order.lower_case needle) (values (order.visit m.packages)))
