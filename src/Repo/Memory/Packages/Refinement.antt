-- ===== src/Repo/Memory/Packages/Refinement.antt =====
-- The repository in memory implements the catalogue.
use mathlib.Core.Path.{subst}
use charm_registry.Prelude.{
  String, ◌≡◌, refl, ap, sym, ◌∙◌, ◌↔◌, inl, inr, none, some, List, [], ◌∷◌, arith, Option-cases,
}
use charm_registry.Prelude.Maps.{lookup}
use charm_registry.Core.{Package, Track}
use charm_registry.Errors.{Result, ok, err, ok_injective}
use charm_registry.Repo.Memory.State.{Memory, new_memory}
use charm_registry.Repo.Memory.Packages.{
  create_package, update_package, delete_package, create_tracks, get_package_by_id,
}
use charm_registry.Repo.Memory.Accounts.{find}
use charm_registry.Repo.Memory.Packages.Index.{
  IsIndexed-new_memory, IsIndexed, create_package-IsIndexed, update_package-IsIndexed,
  delete_package-IsIndexed, create_tracks-IsIndexed, create_package-eq-ok, update_package-eq-ok,
  delete_package-eq-ok, create_tracks-eq-ok, store_tracks-eq, retracked,
}
use charm_registry.Repo.Memory.Packages.Catalogue.{
  Catalogue, view, Change, create, update, delete, track, Next, created, updated, deleted, tracked,
  after, perform, IsProper, Refines, view-store_package, view-drop_package,
}

free_before : {pkg : Package} {c c' : Catalogue} → Next (create pkg) c c' → c pkg.name ≡ none
free_before (created pkg free) = free

taken_before :
    {pkg : Package} {c c' : Catalogue}
    → Next (update pkg) c c'
    → (old : Package) × (c pkg.name ≡ some old)
taken_before (updated pkg old taken) = (old, taken)

held_before :
    {package_id : String} {c c' : Catalogue}
    → Next (delete package_id) c c'
    → (pkg : Package) × (pkg.id ≡ package_id) × (c pkg.name ≡ some pkg)
held_before (deleted pkg package_id same held) = (pkg, same, held)

tracked_before :
    {package_id : String} {tracks : List Track} {c c' : Catalogue}
    → Next (track package_id tracks) c c'
    → (pkg : Package) × (pkg.id ≡ package_id) × (c pkg.name ≡ some pkg)
tracked_before (tracked pkg package_id tracks same held) = (pkg, same, held)

-- An index finds a package by its ID wherever the catalogue has it.
found_by_id :
    (pkg : Package) (package_id : String) (m : Memory)
    → IsIndexed m
    → pkg.id ≡ package_id
    → view m pkg.name ≡ some pkg
    → lookup package_id m.packages_by_id ≡ some pkg
found_by_id pkg package_id m x same held = rw (← same) (x.by_name pkg.name pkg held).1

pub after-eq-ok :
    {A : Type 0} (r : Result (A × Memory)) (m : Memory) → after r ≡ ok m → (a : A) × (r ≡ ok (a, m))
after-eq-ok (ok (a, m')) m h = (a, ap (λ v. ok (a, v)) (ok_injective h))
after-eq-ok (err e) m h = cc

create-Refines :
    (pkg : Package) (m : Memory) (r : Result Memory)
    → perform (create pkg) m ≡ r
    → IsIndexed m
    → IsProper (create pkg) (view m)
    → Refines (create pkg) m r
unfolding perform create_package IsProper
create-Refines pkg m (ok m') done x proper =
    let (a, stored) = after-eq-ok (create_package pkg m) m' done in
    let (free, same) = create_package-eq-ok pkg m m' stored in
    let fresh : lookup pkg.id m.packages_by_id ≡ none =
      elim (Option-cases (lookup pkg.id m.packages_by_id)) [
        | inl absent ↦ absent
        | inr (other, found) ↦
            let (same_id, held) = x.by_id pkg.id other found in elim (proper other held same_id) [ ]
      ] in
    (
      subst (Next (create pkg) (view m)) (sym (ap view same ∙ view-store_package pkg m))
          (created pkg free),
      create_package-IsIndexed pkg m m' fresh stored x,
    )
create-Refines pkg m (err e) done x proper = λ (c, next). ground (arith, free_before next)

update-Refines :
    (pkg : Package) (m : Memory) (r : Result Memory)
    → perform (update pkg) m ≡ r
    → IsIndexed m
    → IsProper (update pkg) (view m)
    → Refines (update pkg) m r
unfolding perform update_package IsProper
update-Refines pkg m (ok m') done x proper =
    let (a, stored) = after-eq-ok (update_package pkg m) m' done in
    let same = update_package-eq-ok pkg m m' stored in
    elim (Option-cases (view m pkg.name)) [
      | inl free ↦ ground arith
      | inr (old, taken) ↦ (
        subst (Next (update pkg) (view m)) (sym (ap view same ∙ view-store_package pkg m))
            (updated pkg old taken),
        update_package-IsIndexed pkg old m m' taken (proper old taken) stored x,
      )
    ]
update-Refines pkg m (err e) done x proper = λ (c, next). ground (arith, (taken_before next).1)

delete-Refines :
    (package_id : String) (m : Memory) (r : Result Memory)
    → perform (delete package_id) m ≡ r
    → IsIndexed m
    → Refines (delete package_id) m r
unfolding perform delete_package
delete-Refines package_id m (ok m') done x =
    let (a, stored) = after-eq-ok (delete_package package_id m) m' done in
    let (pkg, found, same) = delete_package-eq-ok package_id m m' stored in
    let (same_id, held) = x.by_id package_id pkg found in
    (
      subst (Next (delete package_id) (view m))
          (sym (ap view same ∙ view-drop_package package_id pkg m))
          (deleted pkg package_id same_id held),
      (delete_package-IsIndexed package_id m m' stored x).0,
    )
delete-Refines package_id m (err e) done x = λ (c, next).
    let (pkg, same, held) = held_before next in
    ground (arith, found_by_id pkg package_id m x same held)

track-Refines :
    (package_id : String) (tracks : List Track) (m : Memory) (r : Result Memory)
    → perform (track package_id tracks) m ≡ r
    → IsIndexed m
    → Refines (track package_id tracks) m r
unfolding perform create_tracks
track-Refines package_id tracks m (ok m') done x =
    let (n, stored) = after-eq-ok (create_tracks package_id tracks m) m' done in
    let (pkg, found, same, _) = create_tracks-eq-ok package_id tracks n m m' stored in
    let (same_id, held) = x.by_id package_id pkg found in
    let all = retracked pkg tracks in
    (
      subst (Next (track package_id tracks) (view m))
          (sym
            (ap view (same ∙ store_tracks-eq package_id all m same_id) ∙ view-store_package all m))
          (tracked pkg package_id tracks same_id held),
      create_tracks-IsIndexed package_id tracks n m m' stored x,
    )
track-Refines package_id tracks m (err e) done x = λ (c, next).
    let (pkg, same, held) = tracked_before next in
    ground (arith, found_by_id pkg package_id m x same held)

-- CreatePackage, UpdatePackage, DeletePackage and CreateTracks on agreeing maps: where the method
-- succeeds, the catalogue makes the step that the method stands for, and the maps still agree; where
-- it fails, the catalogue allows no such step. A new package has an ID of its own, and an update
-- leaves the ID of its package.
pub perform-Refines :
    (change : Change) (m : Memory)
    → IsIndexed m
    → IsProper change (view m)
    → Refines change m (perform change m)
perform-Refines (create pkg) m x proper = create-Refines pkg m _ refl x proper
perform-Refines (update pkg) m x proper = update-Refines pkg m _ refl x proper
perform-Refines (delete package_id) m x proper = delete-Refines package_id m _ refl x
perform-Refines (track package_id tracks) m x proper = track-Refines package_id tracks m _ refl x

-- A run of the methods, each of which succeeds.
pub data Run : List Change → Memory → Memory → Type 0 where
  done : {m : Memory} → Run [] m m
  more :
      {changes : List Change} {m m' m'' : Memory} (change : Change)
      → IsProper change (view m)
      → perform change m ≡ ok m'
      → Run changes m' m''
      → Run (change ∷ changes) m m''

-- The steps that a run makes on the catalogue.
pub data Replay : List Change → Catalogue → Catalogue → Type 0 where
  stop : {c : Catalogue} → Replay [] c c
  go :
      {changes : List Change} {c c' c'' : Catalogue} (change : Change)
      → Next change c c'
      → Replay changes c' c''
      → Replay (change ∷ changes) c c''

Run-Replay-view :
    {changes : List Change} {m m' : Memory}
    → IsIndexed m
    → Run changes m m'
    → Replay changes (view m) (view m') × IsIndexed m'
Run-Replay-view x done = (stop, x)
Run-Replay-view {m = m} x (more change proper performed rest) =
    let (next, x') = subst (Refines change m) performed (perform-Refines change m x proper) in
    let (replayed, x'') = Run-Replay-view x' rest in (go change next replayed, x'')

get_package_by_id_iff :
    (m : Memory) (package_id : String) (pkg : Package)
    → IsIndexed m
    → (get_package_by_id package_id m ≡ ok pkg)
      ↔ ((pkg.id ≡ package_id) × (view m pkg.name ≡ some pkg))
unfolding get_package_by_id find
get_package_by_id_iff m package_id pkg x = (
  λ h. x.by_id package_id pkg (ground arith),
  λ (same, held). ground (arith, found_by_id pkg package_id m x same held),
)

-- A run of CreatePackage, UpdatePackage, DeletePackage and CreateTracks from the empty repository
-- replays on the catalogue, from the empty one to the one that the state stands for; and
-- GetPackageByID then answers the package of the catalogue that has the ID, and no other.
pub Run-Replay :
    {changes : List Change} {m : Memory}
    → Run changes new_memory m
    → Replay changes (λ name. none) (view m)
      × ((package_id : String) (pkg : Package)
          → (get_package_by_id package_id m ≡ ok pkg)
            ↔ ((pkg.id ≡ package_id) × (view m pkg.name ≡ some pkg)))
unfolding lookup
Run-Replay {m = m} run =
    let (replayed, x) = Run-Replay-view IsIndexed-new_memory run in
    (replayed, λ package_id pkg. get_package_by_id_iff m package_id pkg x)
