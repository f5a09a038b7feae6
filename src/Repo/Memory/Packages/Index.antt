-- ===== src/Repo/Memory/Packages/Index.antt =====
-- The two maps of packages agree.
use charm_registry.Prelude.{ℕ, String, ◌≡◌, none, some, List, eq_iff, arith}
use charm_registry.Prelude.Maps.{lookup, lookup-insert, lookup-erase}
use charm_registry.Core.{Package, Track}
use charm_registry.Errors.{ok}
use charm_registry.Repo.Memory.State.{Memory, new_memory}
use charm_registry.Repo.Memory.Packages.{
  store_package, create_package, update_package, drop_package, delete_package, store_tracks,
  add_tracks, create_tracks,
}

-- Each entry of `packages` is stored under its name, each of `packages_by_id` under its ID, and
-- both maps hold the same packages.
pub record IsIndexed (m : Memory) : Type 0 where
  pub by_name :
      (n : String) (p : Package)
      → lookup n m.packages ≡ some p
      → (p.name ≡ n) × (lookup p.id m.packages_by_id ≡ some p)
  pub by_id :
      (i : String) (p : Package)
      → lookup i m.packages_by_id ≡ some p
      → (p.id ≡ i) × (lookup p.name m.packages ≡ some p)

-- No other package has the name or the ID of `pkg`.
record Fits (pkg : Package) (m : Memory) : Type 0 where
  same_id : (q : Package) → lookup pkg.name m.packages ≡ some q → q.id ≡ pkg.id
  same_name : (q : Package) → lookup pkg.id m.packages_by_id ≡ some q → q.name ≡ pkg.name

store_package-IsIndexed :
    (pkg : Package) (m : Memory) → Fits pkg m → IsIndexed m → IsIndexed (store_package pkg m)
unfolding store_package
store_package-IsIndexed pkg m f x = record {
  by_name = λ n p h. ground (
    arith,
    lookup-insert pkg.name n pkg m.packages,
    lookup-insert pkg.id p.id pkg m.packages_by_id,
    eq_iff pkg.name n,
    eq_iff pkg.id p.id,
    x.by_name n p,
    f.same_name p,
  );
  by_id = λ i p h. ground (
    arith,
    lookup-insert pkg.id i pkg m.packages_by_id,
    lookup-insert pkg.name p.name pkg m.packages,
    eq_iff pkg.id i,
    eq_iff pkg.name p.name,
    x.by_id i p,
    f.same_id p,
  );
}

pub create_package-eq-ok :
    (pkg : Package) (m m' : Memory)
    → create_package pkg m ≡ ok (tt, m')
    → (lookup pkg.name m.packages ≡ none) × (m' ≡ store_package pkg m)
unfolding create_package
create_package-eq-ok pkg m m' e = (ground arith, ground arith)

pub update_package-eq-ok :
    (pkg : Package) (m m' : Memory) → update_package pkg m ≡ ok (tt, m') → m' ≡ store_package pkg m
unfolding update_package
update_package-eq-ok pkg m m' e = ground arith

-- CreatePackage of a package with an ID that no stored package has keeps the two maps in
-- agreement, whenever it succeeds.
pub create_package-IsIndexed :
    (pkg : Package) (m m' : Memory)
    → lookup pkg.id m.packages_by_id ≡ none
    → create_package pkg m ≡ ok (tt, m')
    → IsIndexed m
    → IsIndexed m'
create_package-IsIndexed pkg m m' fresh e x =
    let (absent, same) = create_package-eq-ok pkg m m' e in
    rw same
      (store_package-IsIndexed pkg m (record { same_id = λ q h. cc; same_name = λ q h. cc }) x)

-- UpdatePackage of a package that is stored under the same name and ID, with whatever other
-- fields, keeps the two maps in agreement, whenever it succeeds.
pub update_package-IsIndexed :
    (pkg old : Package) (m m' : Memory)
    → lookup pkg.name m.packages ≡ some old
    → old.id ≡ pkg.id
    → update_package pkg m ≡ ok (tt, m')
    → IsIndexed m
    → IsIndexed m'
update_package-IsIndexed pkg old m m' found same_id e x = rw (update_package-eq-ok pkg m m' e) (
    store_package-IsIndexed pkg m
      (record {
        same_id = λ q h. ground arith;
        same_name = λ q h. ground (arith, x.by_name pkg.name old found);
      })
      x)

pub delete_package-eq-ok :
    (package_id : String) (m m' : Memory)
    → delete_package package_id m ≡ ok (tt, m')
    → (pkg : Package) × (lookup package_id m.packages_by_id ≡ some pkg)
      × (m' ≡ drop_package package_id pkg m)
unfolding delete_package
delete_package-eq-ok package_id m m' e = ground arith

drop_package-IsIndexed :
    (pkg : Package) (package_id : String) (m : Memory)
    → lookup package_id m.packages_by_id ≡ some pkg
    → IsIndexed m
    → IsIndexed (drop_package package_id pkg m)
unfolding drop_package
drop_package-IsIndexed pkg package_id m found x = record {
  by_name = λ n p h. ground (
    arith,
    lookup-erase pkg.name n m.packages,
    lookup-erase package_id p.id m.packages_by_id,
    eq_iff pkg.name n,
    eq_iff package_id p.id,
    x.by_name n p,
    x.by_id package_id pkg found,
  );
  by_id = λ i p h. ground (
    arith,
    lookup-erase package_id i m.packages_by_id,
    lookup-erase pkg.name p.name m.packages,
    eq_iff package_id i,
    eq_iff pkg.name p.name,
    x.by_id i p,
    x.by_id package_id pkg found,
  );
}

drop_package-gone :
    (pkg : Package) (package_id : String) (m : Memory)
    → lookup package_id (drop_package package_id pkg m).packages_by_id ≡ none
unfolding drop_package
drop_package-gone pkg package_id m =
    ground
      (arith, lookup-erase package_id package_id m.packages_by_id, eq_iff package_id package_id)

-- DeletePackage, whenever it succeeds, keeps the two maps in agreement, and no package has the ID
-- any more.
pub delete_package-IsIndexed :
    (package_id : String) (m m' : Memory)
    → delete_package package_id m ≡ ok (tt, m')
    → IsIndexed m
    → IsIndexed m' × (lookup package_id m'.packages_by_id ≡ none)
delete_package-IsIndexed package_id m m' e x =
    let (pkg, found, same) = delete_package-eq-ok package_id m m' e in
    rw same (drop_package-IsIndexed pkg package_id m found x, drop_package-gone pkg package_id m)

pub store_tracks-eq :
    (package_id : String) (pkg : Package) (m : Memory)
    → pkg.id ≡ package_id
    → store_tracks package_id pkg m ≡ store_package pkg m
unfolding store_tracks store_package
store_tracks-eq package_id pkg m same = rw same

abbrev pub retracked : Package → List Track → Package
retracked pkg tracks = record pkg { tracks = (add_tracks pkg.tracks tracks 0).0 }

pub create_tracks-eq-ok :
    (package_id : String) (tracks : List Track) (n : ℕ) (m m' : Memory)
    → create_tracks package_id tracks m ≡ ok (n, m')
    → (pkg : Package) × (lookup package_id m.packages_by_id ≡ some pkg)
      × (m' ≡ store_tracks package_id (retracked pkg tracks) m)
      × (n ≡ (add_tracks pkg.tracks tracks 0).1)
unfolding create_tracks
create_tracks-eq-ok package_id tracks n m m' e = ground arith

-- CreateTracks keeps the two maps in agreement, whenever it succeeds.
pub create_tracks-IsIndexed :
    (package_id : String) (tracks : List Track) (n : ℕ) (m m' : Memory)
    → create_tracks package_id tracks m ≡ ok (n, m')
    → IsIndexed m
    → IsIndexed m'
create_tracks-IsIndexed package_id tracks n m m' e x =
    let (pkg, found, same, _) = create_tracks-eq-ok package_id tracks n m m' e in
    let (same_id, by_name) = x.by_id package_id pkg found in
    rw (same, store_tracks-eq package_id (retracked pkg tracks) m same_id)
      (store_package-IsIndexed (retracked pkg tracks) m
        (record { same_id = λ q h. cc; same_name = λ q h. cc }) x)

pub IsIndexed-new_memory : IsIndexed new_memory
unfolding lookup
IsIndexed-new_memory = record { by_name = λ n p h. cc; by_id = λ i p h. cc }
