-- ===== src/System/Invariant.antt =====
-- What holds of every state that the repository in memory comes to.
use mathlib.Core.Path.{subst}
use charm_registry.Prelude.{◌≡◌, refl, ap, sym, arith, Option-cases, inl, inr}
use charm_registry.Prelude.Maps.{Map, insert}
use charm_registry.Prelude.Keyed.{Entries}
use charm_registry.Repo.Memory.Consistency.{
  AccountsAgree, HashOf, UploadAt, ReleasesOf, DefinitionsOf,
}
use charm_registry.Core.{Revision, ResourceRevision, Package}
use charm_registry.Errors.{ok, ok_injective}
use charm_registry.Repo.Memory.State.{Memory, Platform, new_memory}
use charm_registry.Repo.Memory.Revisions.{create_revision, get_latest_revision}
use charm_registry.Repo.Memory.Resources.{
  create_resource_revision, update_resource_revision, replace_first, resource_revisions_of,
}
use charm_registry.Repo.Memory.Packages.{
  store_package, drop_package, create_package, update_package, delete_package, create_tracks,
  store_tracks,
}
use charm_registry.Repo.Memory.Packages.Index.{
  create_package-eq-ok, update_package-eq-ok, delete_package-eq-ok, create_tracks-eq-ok,
}
use charm_registry.Repo.Memory.Packages.Catalogue.{
  Change, create, update, delete, track, IsProper, perform, view, Refines,
}
use charm_registry.Repo.Memory.Packages.Refinement.{after-eq-ok, perform-Refines}
use charm_registry.Service.Revisions.{next_number}
use charm_registry.Service.Revisions.Numbering.{create_revision-IsNumbered}
use charm_registry.System.Steps.{
  Step, Reach, here, next, ensuring, storing_token, revoking, changing, uploading, reviewing,
  revising, declaring, adding_resource, changing_resource, releasing,
}
use charm_registry.System.Consistency.{
  IsConsistent, IsConsistent-new_memory, besides_packages, other_fields-IsIndexed,
  other_fields-IsNumbered,
}
use charm_registry.System.Preservation.{
  ensure_account-IsConsistent, create_store_token-IsConsistent, revoke_store_token-IsConsistent,
  create_upload-IsConsistent, approve_upload-IsConsistent, replace_release-IsConsistent,
  upsert_resource_definition-IsConsistent,
}

-- The maps that the methods on packages do not touch.
record BesidesPackages (m m' : Memory) : Type 0 where
  revisions : m.revisions ≡ m'.revisions
  accounts : m.accounts ≡ m'.accounts
  accounts_by_id : m.accounts_by_id ≡ m'.accounts_by_id
  tokens : m.tokens ≡ m'.tokens
  uploads : m.uploads ≡ m'.uploads
  releases : m.releases ≡ m'.releases
  definitions : m.resource_defs ≡ m'.resource_defs

BesidesPackages-of :
    (m : Memory) (p q : Map Package)
    → BesidesPackages m (record m { packages = p; packages_by_id = q })
BesidesPackages-of m p q = record {
  revisions = refl;
  accounts = refl;
  accounts_by_id = refl;
  tokens = refl;
  uploads = refl;
  releases = refl;
  definitions = refl;
}

perform-BesidesPackages :
    (change : Change) (m m' : Memory) → perform change m ≡ ok m' → BesidesPackages m m'
unfolding perform create_package update_package delete_package create_tracks store_package
    drop_package store_tracks
perform-BesidesPackages (create pkg) m m' e =
    let (a, stored) = after-eq-ok (create_package pkg m) m' e in
    subst (BesidesPackages m) (sym (create_package-eq-ok pkg m m' stored).1)
      (BesidesPackages-of m _ _)
perform-BesidesPackages (update pkg) m m' e =
    let (a, stored) = after-eq-ok (update_package pkg m) m' e in
    subst (BesidesPackages m) (sym (update_package-eq-ok pkg m m' stored))
      (BesidesPackages-of m _ _)
perform-BesidesPackages (delete package_id) m m' e =
    let (a, stored) = after-eq-ok (delete_package package_id m) m' e in
    let (pkg, _, same) = delete_package-eq-ok package_id m m' stored in
    subst (BesidesPackages m) (sym same) (BesidesPackages-of m _ _)
perform-BesidesPackages (track package_id tracks) m m' e =
    let (n, stored) = after-eq-ok (create_tracks package_id tracks m) m' e in
    let (pkg, _, same, _) = create_tracks-eq-ok package_id tracks n m m' stored in
    subst (BesidesPackages m) (sym same) (BesidesPackages-of m _ _)

perform-IsConsistent :
    (change : Change) (m m' : Memory)
    → IsProper change (view m)
    → perform change m ≡ ok m'
    → IsConsistent m
    → IsConsistent m'
perform-IsConsistent change m m' proper e x =
    let same = perform-BesidesPackages change m m' e in
    let refined = subst (Refines change m) e (perform-Refines change m x.packages proper) in
    record {
      packages = refined.1;
      revisions = other_fields-IsNumbered m m' same.revisions x.revisions;
      accounts = rw (← same.accounts, ← same.accounts_by_id) x.accounts;
      tokens = rw (← same.tokens) x.tokens;
      uploads = rw (← same.uploads) x.uploads;
      releases = rw (← same.releases) x.releases;
      definitions = rw (← same.definitions) x.definitions;
    }

create_revision-IsConsistent :
    (r : Revision) (m m' : Memory)
    → next_number (get_latest_revision r.package_id m) ≡ ok r.revision
    → create_revision r m ≡ ok (tt, m')
    → IsConsistent m
    → IsConsistent m'
unfolding create_revision
create_revision-IsConsistent r m m' numbered e x =
    let (all, found) = create_revision-IsNumbered r m m' x.revisions numbered e in
    record {
      packages = other_fields-IsIndexed m m' (ground arith) (ground arith) x.packages;
      revisions = all;
      accounts =
          subst (λ n. AccountsAgree n.accounts n.accounts_by_id) (ap (λ p. p.1) (ok_injective e))
            x.accounts;
      tokens = subst (λ n. Entries HashOf n.tokens) (ap (λ p. p.1) (ok_injective e)) x.tokens;
      uploads = subst (λ n. Entries UploadAt n.uploads) (ap (λ p. p.1) (ok_injective e)) x.uploads;
      releases =
          subst (λ n. Entries ReleasesOf n.releases) (ap (λ p. p.1) (ok_injective e)) x.releases;
      definitions =
          subst (λ n. Entries DefinitionsOf n.resource_defs) (ap (λ p. p.1) (ok_injective e))
            x.definitions;
    }

create_resource_revision-IsConsistent :
    (r : ResourceRevision) (m m' : Memory)
    → create_resource_revision r m ≡ ok (tt, m')
    → IsConsistent m
    → IsConsistent m'
unfolding create_resource_revision
create_resource_revision-IsConsistent r m m' e x =
    subst IsConsistent (ap (λ p. p.1) (ok_injective e))
      (besides_packages m _ x refl refl refl x.accounts x.tokens x.uploads x.releases x.definitions)

update_resource_revision-IsConsistent :
    (r : ResourceRevision) (m m' : Memory)
    → update_resource_revision r m ≡ ok (tt, m')
    → IsConsistent m
    → IsConsistent m'
unfolding update_resource_revision
update_resource_revision-IsConsistent r m m' e x =
    elim (Option-cases (replace_first r (resource_revisions_of r.resource_id m))) [
      | inl missing ↦ ground arith
      | inr (entries, found) ↦
          let same : record m {
            resource_revisions = insert r.resource_id entries m.resource_revisions;
          }
              ≡ m' =
            ground arith in
          subst IsConsistent same (
            besides_packages m _ x refl refl refl x.accounts x.tokens x.uploads x.releases
              x.definitions)
    ]

module _ (order : Platform) where
  Step-IsConsistent : {m m' : Memory} → Step order m m' → IsConsistent m → IsConsistent m'
  Step-IsConsistent (ensuring t a b fresh e) x = ensure_account-IsConsistent t a b _ _ fresh e x
  Step-IsConsistent (storing_token token e) x = create_store_token-IsConsistent token _ _ e x
  Step-IsConsistent (revoking t acc ses by e) x =
      revoke_store_token-IsConsistent order t acc ses by _ _ e x
  Step-IsConsistent (changing change proper e) x = perform-IsConsistent change _ _ proper e x
  Step-IsConsistent (uploading upload e) x = create_upload-IsConsistent upload _ _ e x
  Step-IsConsistent (reviewing t id number errors e) x =
      approve_upload-IsConsistent t id number errors _ _ e x
  Step-IsConsistent (revising r numbered e) x = create_revision-IsConsistent r _ _ numbered e x
  Step-IsConsistent (declaring def def' e) x =
      upsert_resource_definition-IsConsistent def def' _ _ e x
  Step-IsConsistent (adding_resource r e) x = create_resource_revision-IsConsistent r _ _ e x
  Step-IsConsistent (changing_resource r e) x = update_resource_revision-IsConsistent r _ _ e x
  Step-IsConsistent (releasing package_id release e) x =
      replace_release-IsConsistent package_id release _ _ e x

  -- A run of calls of the repository in memory, from the empty one, in which each call succeeds and
  -- meets the conditions of Step: a new account or package has a new ID, an update keeps the ID of its
  -- package, and a new revision has the number that PushRevision gives it in the state of the call.
  -- Every state of such a run is consistent: the maps of packages agree, and so do those of accounts;
  -- the revisions of every package are numbered from 1 on; every token, upload, release and resource
  -- definition stands under its own key.
  pub Reach-IsConsistent : {m : Memory} → Reach order new_memory m → IsConsistent m
  Reach-IsConsistent here = IsConsistent-new_memory
  Reach-IsConsistent (next before step) = Step-IsConsistent step (Reach-IsConsistent before)
