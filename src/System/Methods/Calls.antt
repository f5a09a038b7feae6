-- ===== src/System/Methods/Calls.antt =====
-- The methods of internal/service that leave the repository in memory consistent, in any order.
use charm_registry.Prelude.{ℕ, ◌+◌, String, ◌≡◌, refl, ap, sym, ◌∙◌, Option, some, List, arith}
use charm_registry.Prelude.Maps.{Map, lookup}
use charm_registry.Core.{Identity, Track, Package, Time, StoreToken, Upload}
use charm_registry.Config.{Config}
use charm_registry.Errors.{Result, ok, err, map_error-eq-ok}
use charm_registry.Repo.Memory.State.{Memory, Platform, new_memory}
use charm_registry.Repo.Memory.Packages
use charm_registry.Repo.Memory.Packages.Index.{IsIndexed}
use charm_registry.Repo.Memory.Packages.Catalogue.{update, perform, IsProper, view, after}
use charm_registry.Repo.Memory.Accounts.{find}
use charm_registry.Service.Context.{
  Service, Runtime, World, Action, ◌>>=◌, continue, store_db, read, write, now,
}
use charm_registry.Service.Tokens.{
  IssueTokenRequest, issue_store_token, exchange_store_token, revoke_store_token,
}
use charm_registry.Service.Revisions.{create_upload}
use charm_registry.Service.Resources.{
  PushResourceRequest, ResourceRevisionUpdate, push_resource, update_resource_revisions,
}
use charm_registry.Service.Packages.{
  MetadataPatch, package_named, apply_patch, enrich_package, unregister_package, update_package,
}
use charm_registry.Service.Releases.{create_tracks}
use charm_registry.Service.Revisions.Uploads.{in_memory}
use charm_registry.System.Steps.{Step, Reach, here, next, changing}
use charm_registry.System.Consistency.{IsConsistent}
use charm_registry.System.Invariant.{Reach-IsConsistent}
use charm_registry.System.Methods.Resources.{
  push_resource-RunsBySteps, update_resource_revisions-RunsBySteps,
}
use charm_registry.System.Methods.{
  RunsBySteps, Reach-Reach, issue_store_token-RunsBySteps, exchange_store_token-RunsBySteps,
  revoke_store_token-RunsBySteps, create_upload-RunsBySteps, unregister_package-RunsBySteps,
  create_tracks-RunsBySteps,
}

module _ (cfg : Config) (runtime : Runtime) (order : Platform) where
  abbrev pub s : Service
  s = in_memory cfg runtime order

  read_only : {A : Type 0} (g : Memory → Result A) → RunsBySteps cfg runtime order (read {s = s} g)
  unfolding read
  read_only g = record { run = λ w. here }

  -- From a state with the property, the method runs by steps.
  record RunsOn (P : Memory → Type 0) {A : Type 0} (m : Action s A) : Type 0 where
    run_on : (w : World s) → P w.db → Reach order w.db (m w).1.db

  read_run :
      (P : Memory → Type 0) {A B : Type 0} (g : Memory → Result A) (f : A → Action s B)
      (w : World s) (r : Result A)
      → P w.db
      → g w.db ≡ r
      → ((x : A) → RunsOn (λ d. P d × (g d ≡ ok x)) (f x))
      → Reach order w.db (continue {s = s} r f w).1.db
  read_run P g f w (ok x) held done rest = (rest x).run_on w (held, done)
  read_run P g f w (err e) held done rest = here

  on_read :
      (P : Memory → Type 0) {A B : Type 0} (g : Memory → Result A) (f : A → Action s B)
      → ((x : A) → RunsOn (λ d. P d × (g d ≡ ok x)) (f x))
      → RunsOn P (read {s = s} g >>= f)
  unfolding ◌>>=◌ read
  on_read P g f rest = record { run_on = λ w held. read_run P g f w _ held refl rest }

  on_now :
      (P : Memory → Type 0) {B : Type 0} (f : Time → Action s B)
      → ((t : Time) → RunsOn P (f t))
      → RunsOn P (now {s = s} >>= f)
  unfolding ◌>>=◌ now
  on_now P f rest = record {
    run_on =
        λ w held. (rest (runtime.clock w.calls)).run_on (record w { calls = w.calls + 1 }) held;
  }

  write_run :
      (P : Memory → Type 0) {A B : Type 0} (g : Memory → Result (A × Memory)) (f : A → Action s B)
      (w : World s) (r : Result (A × Memory))
      → P w.db
      → g w.db ≡ r
      → ((a b : Memory) (x : A) → P a → g a ≡ ok (x, b) → Step order a b)
      → ((x : A) → RunsBySteps cfg runtime order (f x))
      → Reach order w.db (continue {s = s} (store_db {s = s} r w).0 f (store_db {s = s} r w).1).1.db
  write_run P g f w (ok (x, b)) held done step rest =
      Reach-Reach cfg runtime order (next here (step w.db b x held done)) ((rest x).run _)
  write_run P g f w (err e) held done step rest = here

  on_write :
      (P : Memory → Type 0) {A B : Type 0} (g : Memory → Result (A × Memory)) (f : A → Action s B)
      → ((a b : Memory) (x : A) → P a → g a ≡ ok (x, b) → Step order a b)
      → ((x : A) → RunsBySteps cfg runtime order (f x))
      → RunsOn P (write {s = s} g >>= f)
  unfolding ◌>>=◌ write
  on_write P g f step rest = record { run_on = λ w held. write_run P g f w _ held refl step rest }

  find-eq-ok :
      (name : String) (pkg : Package) (packages : Map Package)
      → find name packages ≡ ok pkg
      → lookup name packages ≡ some pkg
  unfolding find
  find-eq-ok name pkg packages found = ground arith

  -- A package that the service has found by its name is the one that stands under its name.
  package_named-IsProper :
      (name : String) (pkg updated : Package) (m : Memory)
      → IsIndexed m
      → package_named s name m ≡ ok pkg
      → updated.id ≡ pkg.id
      → updated.name ≡ pkg.name
      → IsProper (update updated) (view m)
  unfolding package_named Packages.get_package_by_name find IsProper
  package_named-IsProper name pkg updated m indexed named same_id same_name old held =
      let found : lookup name m.packages ≡ some pkg =
        find-eq-ok name pkg m.packages (map_error-eq-ok _ _ named) in
      let own = same_name ∙ (indexed.by_name name pkg found).0 in
      let both : some old ≡ some pkg = sym held ∙ ap (λ key. lookup key m.packages) own ∙ found in
      rw (same_id) (cc both)

  update_perform :
      (pkg : Package) (a b : Memory)
      → Packages.update_package pkg a ≡ ok (tt, b)
      → perform (update pkg) a ≡ ok b
  unfolding perform
  update_perform pkg a b done = ap after done

  update_package-RunsOn :
      (identity : Identity) (name : String) (patch : MetadataPatch)
      → RunsOn IsIndexed (update_package s identity name patch)
  unfolding update_package apply_patch
  update_package-RunsOn identity name patch = on_read _ _ _ λ pkg. on_read _ _ _ λ x.
      on_now _ _ λ t.
        let updated = apply_patch patch t pkg in
        on_write _ _ _
          (λ a b y held done.
            changing (update updated)
              (package_named-IsProper name pkg updated a held.0.0 held.0.1 refl refl)
              (update_perform updated a b done))
          λ y. read_only (enrich_package s updated)

  -- The methods below, with their arguments.
  pub data Writing : (A : Type 0) → Action s A → Type 1 where
    issuing :
        (identity : Identity) (req : IssueTokenRequest)
        → Writing (String × StoreToken) (issue_store_token s identity req)
    exchanging :
        (identity : Identity) (description : Option String)
        → Writing String (exchange_store_token s identity description)
    revoking_token :
        (identity : Identity) (session_id : String)
        → Writing (Unit {0}) (revoke_store_token s identity session_id)
    uploading_file : (filename payload : String) → Writing Upload (create_upload s filename payload)
    unregistering :
        (identity : Identity) (name : String) → Writing String (unregister_package s identity name)
    creating_tracks :
        (identity : Identity) (name : String) (tracks : List Track)
        → Writing ℕ (create_tracks s identity name tracks)
    pushing_resource :
        (identity : Identity) (name resource_name : String) (req : PushResourceRequest)
        → Writing String (push_resource s identity name resource_name req)
    updating_resources :
        (identity : Identity) (name resource_name : String) (updates : List ResourceRevisionUpdate)
        → Writing ℕ (update_resource_revisions s identity name resource_name updates)
    updating :
        (identity : Identity) (name : String) (patch : MetadataPatch)
        → Writing Package (update_package s identity name patch)

  always : {A : Type 0} {m : Action s A} → RunsBySteps cfg runtime order m → RunsOn IsIndexed m
  always runs = record { run_on = λ w held. runs.run w }

  Writing-RunsOn : {A : Type 0} {m : Action s A} → Writing A m → RunsOn IsIndexed m
  Writing-RunsOn (issuing identity req) =
      always (issue_store_token-RunsBySteps cfg runtime order identity req)
  Writing-RunsOn (exchanging identity description) =
      always (exchange_store_token-RunsBySteps cfg runtime order identity description)
  Writing-RunsOn (revoking_token identity session_id) =
      always (revoke_store_token-RunsBySteps cfg runtime order identity session_id)
  Writing-RunsOn (uploading_file filename payload) =
      always (create_upload-RunsBySteps cfg runtime order filename payload)
  Writing-RunsOn (unregistering identity name) =
      always (unregister_package-RunsBySteps cfg runtime order identity name)
  Writing-RunsOn (creating_tracks identity name tracks) =
      always (create_tracks-RunsBySteps cfg runtime order identity name tracks)
  Writing-RunsOn (pushing_resource identity name resource_name req) =
      always (push_resource-RunsBySteps cfg runtime order identity name resource_name req)
  Writing-RunsOn (updating_resources identity name resource_name updates) =
      always (
        update_resource_revisions-RunsBySteps cfg runtime order identity name resource_name updates)
  Writing-RunsOn (updating identity name patch) = update_package-RunsOn identity name patch

  -- A state that steps lead to from the empty repository in memory, where a step is a successful
  -- call of the repository that meets the conditions of Step (a new account or package has a new ID,
  -- an update keeps the ID of its package, and a new revision has the number that PushRevision gives it
  -- in the state of the call), is consistent. In such a state each of IssueStoreToken,
  -- ExchangeStoreToken, RevokeStoreToken, CreateUpload, UpdatePackage, UnregisterPackage, CreateTracks,
  -- PushResource and UpdateResourceRevisions, if no other request writes meanwhile and whatever it
  -- answers, leads to another such state, which is consistent too.
  pub Writing-IsConsistent :
      {A : Type 0} {m : Action s A} (w : World s)
      → Writing A m
      → Reach order new_memory w.db
      → IsConsistent w.db × Reach order new_memory (m w).1.db × IsConsistent (m w).1.db
  Writing-IsConsistent w writing before =
      let consistent = Reach-IsConsistent order before in
      let reached =
        Reach-Reach cfg runtime order before
          ((Writing-RunsOn writing).run_on w consistent.packages) in
      (consistent, reached, Reach-IsConsistent order reached)
