-- ===== src/Tests/Catalogue.antt =====
-- The refinement of the package maps, on a run that registers a package, adds a track and deletes it.
use charm_registry.Prelude.{String, ◌≡◌, ◌↔◌, refl, none, some, pos, [], ◌∷◌, List}
use charm_registry.Prelude.Maps.{lookup, insert, erase}
use charm_registry.Core.{Account, Package}
use charm_registry.Errors.{ok}
use charm_registry.Repo.Memory.State.{Memory, new_memory}
use charm_registry.Repo.Memory.Packages.{store_package, get_package_by_id, create_package}
use charm_registry.Repo.Memory.Packages.Index.{IsIndexed-new_memory}
use charm_registry.Repo.Memory.Packages.Catalogue.{
  Change, create, delete, track, view, perform, IsProper, Refines,
}
use charm_registry.Repo.Memory.Packages.Refinement.{
  Run, Replay, done, more, perform-Refines, Run-Replay,
}
use charm_registry.System.Steps.{Reach, here, next, ensuring, changing, revising, releasing}
use charm_registry.System.Consistency.{IsConsistent}
use charm_registry.System.Methods.Calls.{updating, Writing-IsConsistent}
use charm_registry.Service.Context.{World}
use charm_registry.Service.Packages.{MetadataPatch, update_package}
use charm_registry.Service.Revisions.{next_number}
use charm_registry.Repo.Memory.Accounts.{ensure_account}
use charm_registry.Repo.Memory.Revisions.{create_revision, get_latest_revision, revisions_of}
use charm_registry.Repo.Memory.Releases.{replace_release, releases_of}
use charm_registry.Tests.Fixtures.{
  in_order, nginx, with_nginx, alice, revision, release_on, service, owner, config, runtime,
}

nginx_is_new : IsProper (create nginx) (view new_memory)
unfolding IsProper lookup
nginx_is_new other held = cc

perform-Refines_example : Refines (create nginx) new_memory (perform (create nginx) new_memory)
perform-Refines_example =
    perform-Refines (create nginx) new_memory IsIndexed-new_memory nginx_is_new

abbrev changes : List Change
changes = create nginx ∷ track "p1" nginx.tracks ∷ delete "p1" ∷ []

abbrev emptied : Memory
emptied = new_memory

run : Run changes new_memory emptied
unfolding perform IsProper lookup create_package store_package insert erase
run =
    more (create nginx) nginx_is_new refl
      (more {m' = with_nginx} (track "p1" nginx.tracks) tt refl (more (delete "p1") tt refl done))

Run-Replay_example :
    Replay changes (λ name. none) (view emptied)
    × ((package_id : String) (pkg : Package)
        → (get_package_by_id package_id emptied ≡ ok pkg)
          ↔ ((pkg.id ≡ package_id) × (view emptied pkg.name ≡ some pkg)))
Run-Replay_example = Run-Replay run

-- A run that signs alice in, registers a package, numbers a revision of it and releases it.
abbrev signed_in : Memory
signed_in = record new_memory { accounts = ("s1", alice) ∷ []; accounts_by_id = ("a1", alice) ∷ [] }

abbrev registered : Memory
registered = record signed_in {
  packages = ("nginx", nginx) ∷ [];
  packages_by_id = ("p1", nginx) ∷ [];
}

abbrev revised : Memory
revised = record registered { revisions = ("p1", revision ∷ []) ∷ [] }

abbrev on_edge : Memory
on_edge = record revised { releases = ("p1", ("2.0/edge", release_on "2.0/edge") ∷ []) ∷ [] }

signing_in : ensure_account 1 alice new_memory ≡ ok (alice, signed_in)
unfolding ensure_account lookup insert
signing_in = refl

registering : perform (create nginx) signed_in ≡ ok registered
unfolding perform create_package store_package lookup insert
registering = refl

still_new : IsProper (create nginx) (view signed_in)
unfolding IsProper lookup
still_new other held = cc

first_number : next_number (get_latest_revision "p1" registered) ≡ ok (pos 1)
unfolding next_number get_latest_revision revisions_of lookup
first_number = refl

revising_nginx : create_revision revision registered ≡ ok (tt, revised)
unfolding create_revision revisions_of lookup insert
revising_nginx = refl

releasing_nginx : replace_release "p1" (release_on "2.0/edge") revised ≡ ok (tt, on_edge)
unfolding replace_release releases_of lookup insert
releasing_nginx = refl

new_account :
    (other : Account) → lookup "a1" new_memory.accounts_by_id ≡ some other → other.subject ≡ "s1"
unfolding lookup
new_account other held = cc

reached : Reach in_order new_memory on_edge
reached =
    next
      (next
        (next (next here (ensuring 1 alice alice new_account signing_in))
          (changing (create nginx) still_new registering))
        (revising revision first_number revising_nginx))
      (releasing "p1" (release_on "2.0/edge") releasing_nginx)

abbrev released_world : World service
released_world = record { db = on_edge; files = []; calls = 4 }

abbrev patch : MetadataPatch
patch = record {
  contact = some "ops@example.com";
  default_track = none;
  description = none;
  summary = none;
  title = none;
  website = none;
  private = none;
  links = none;
}

Writing-IsConsistent_example :
    IsConsistent on_edge
    × Reach in_order new_memory (update_package service owner "nginx" patch released_world).1.db
    × IsConsistent (update_package service owner "nginx" patch released_world).1.db
Writing-IsConsistent_example =
    Writing-IsConsistent config runtime in_order released_world (updating owner "nginx" patch)
      reached
