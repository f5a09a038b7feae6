-- ===== src/Repo/Memory/Packages/Catalogue.antt =====
-- The packages of the repository in memory, as a catalogue: what is abstract of them is the package
-- of each name, and the map by ID is an index that the catalogue does not show.
use mathlib.Core.Path.{fun_ext}
use charm_registry.Prelude.{◌≢◌, String, ◌≡◌, Option, none, some, List, ◌==◌, if◌then◌else◌}
use charm_registry.Prelude.Maps.{lookup, lookup-insert, lookup-erase}
use charm_registry.Core.{Package, Track}
use charm_registry.Errors.{Result, ok, err}
use charm_registry.Repo.Memory.State.{Memory}
use charm_registry.Repo.Memory.Packages.{
  store_package, create_package, update_package, drop_package, delete_package, create_tracks,
}
use charm_registry.Repo.Memory.Packages.Index.{IsIndexed, retracked}

abbrev pub Catalogue : Type 0
Catalogue = String → Option Package

-- The catalogue that a memory stands for.
abbrev pub view : Memory → Catalogue
view m name = lookup name m.packages

abbrev pub put : Package → Catalogue → Catalogue
put pkg c name = if pkg.name == name then some pkg else c name

abbrev pub remove : String → Catalogue → Catalogue
remove gone c name = if gone == name then none else c name

-- The methods that change packages.
pub data Change : Type 0 where
  create update : Package → Change
  delete : String → Change
  track : String → List Track → Change

-- What the methods do to the catalogue: create asks for a name that is free, update for one that is
-- taken, and the other two find the package by its ID, wherever it stands.
pub data Next : Change → Catalogue → Catalogue → Type 0 where
  created : {c : Catalogue} (pkg : Package) → c pkg.name ≡ none → Next (create pkg) c (put pkg c)
  updated :
      {c : Catalogue} (pkg old : Package) → c pkg.name ≡ some old → Next (update pkg) c (put pkg c)
  deleted :
      {c : Catalogue} (pkg : Package) (package_id : String)
      → pkg.id ≡ package_id
      → c pkg.name ≡ some pkg
      → Next (delete package_id) c (remove pkg.name c)
  tracked :
      {c : Catalogue} (pkg : Package) (package_id : String) (tracks : List Track)
      → pkg.id ≡ package_id
      → c pkg.name ≡ some pkg
      → Next (track package_id tracks) c (put (retracked pkg tracks) c)

-- A method that succeeds with a new state; its other result is dropped.
abbrev pub after {ℓ} : {A : Type ℓ} → Result (A × Memory) → Result Memory
after (ok (a, m)) = ok m
after (err e) = err e

-- The method of a change.
unfoldable pub perform : Change → Memory → Result Memory
unfolding create_package update_package delete_package create_tracks
perform (create pkg) m = after (create_package pkg m)
perform (update pkg) m = after (update_package pkg m)
perform (delete package_id) m = after (delete_package package_id m)
perform (track package_id tracks) m = after (create_tracks package_id tracks m)

pub view-store_package :
    (pkg : Package) (m : Memory) → view (store_package pkg m) ≡ put pkg (view m)
unfolding store_package
view-store_package pkg m = fun_ext λ name. lookup-insert pkg.name name pkg m.packages

pub view-drop_package :
    (id : String) (pkg : Package) (m : Memory)
    → view (drop_package id pkg m) ≡ remove pkg.name (view m)
unfolding drop_package
view-drop_package id pkg m = fun_ext λ name. lookup-erase pkg.name name m.packages

-- A new package has an ID that no other has, and an update leaves the ID of the package.
unfoldable pub IsProper : Change → Catalogue → Type 0
IsProper (create pkg) c = (other : Package) → c other.name ≡ some other → other.id ≢ pkg.id
IsProper (update pkg) c = (old : Package) → c pkg.name ≡ some old → old.id ≡ pkg.id
IsProper (delete package_id) c = Unit
IsProper (track package_id tracks) c = Unit

-- The change leads to a state that stands for the next catalogue, or there is no next catalogue.
abbrev pub Refines : Change → Memory → Result Memory → Type 0
Refines change m (ok m') = Next change (view m) (view m') × IsIndexed m'
Refines change m (err e) = ¬ ((c : Catalogue) × Next change (view m) c)
