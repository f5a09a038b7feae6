-- ===== src/Service/Packages/Registration.antt =====
-- What RegisterPackage leaves behind, on the repository in memory.
use mathlib.Core.Path.{subst}
use charm_registry.Prelude.{◌+◌, String, ◌≡◌, Bool, true, none, ap, sym, ◌∙◌}
use charm_registry.Prelude.Maps.{lookup}
use charm_registry.Core.{Identity, Package}
use charm_registry.Config.{Config}
use charm_registry.Errors.{ok, ok_injective}
use charm_registry.Repo.Memory.State.{Platform}
use charm_registry.Repo.Memory.Packages.{create_package, create_tracks}
use charm_registry.Repo.Memory.Packages.Index.{
  IsIndexed, create_package-IsIndexed, create_tracks-IsIndexed,
}
use charm_registry.Service.Context.{Runtime, World, lift, now, new_uuid, write, catch_as, pure}
use charm_registry.Service.Context.Runs.{>>=_ok, lift_ok, write_ok, catch_as_ok}
use charm_registry.Service.Helpers.{compact_id, translate_repo_error}
use charm_registry.Service.Guards.{require_permission, perm_account_register_package}
use charm_registry.Service.Guards.Permissions.{MayUse, require_permission_iff}
use charm_registry.Service.Packages.{registered, register_package}
use charm_registry.Service.Revisions.Uploads.{in_memory}

-- RegisterPackage, when it succeeds with an ID that no package has: the caller is authenticated and
-- its token grants the permission to register, the two maps of packages still agree, and the package
-- belongs to the caller.
pub register_package-IsIndexed :
    (cfg : Config) (runtime : Runtime) (order : Platform) (identity : Identity)
    (name package_type : String) (private : Bool) (pkg : Package)
    (w v : World (in_memory cfg runtime order))
    → IsIndexed w.db
    → lookup (compact_id (runtime.uuid (w.calls + 1))) w.db.packages_by_id ≡ none
    → register_package (in_memory cfg runtime order) identity name package_type private w
      ≡ (ok pkg, v)
    → (identity.authenticated ≡ true)
      × MayUse identity.token perm_account_register_package
      × IsIndexed v.db
      × (pkg.owner_account_id ≡ identity.account.id)
      × (pkg.name ≡ name)
unfolding register_package registered now new_uuid pure
register_package-IsIndexed cfg runtime order identity name package_type private pkg w v x fresh h =
    let s = in_memory cfg runtime order in
    let (u, w1, permitted, h1) =
      >>=_ok {s = s} (lift (require_permission identity perm_account_register_package)) _ w v pkg
        h in
    let (t, w2, clock, h2) = >>=_ok {s = s} now _ w1 v pkg h1 in
    let (id, w3, named, h3) = >>=_ok {s = s} new_uuid _ w2 v pkg h2 in
    let new = registered cfg identity (compact_id id) name package_type private t in
    let (u', w4, created, h4) =
      >>=_ok {s = s}
        (catch_as (translate_repo_error "package already exists") (write (create_package new))) _ w3
        v pkg h3 in
    let (n, w5, tracked, h5) =
      >>=_ok {s = s} (write (create_tracks new.id new.tracks)) _ w4 v pkg h4 in
    let begun =
      lift_ok {s = s} (require_permission identity perm_account_register_package) w w1 u
        permitted in
    let ticked = ap (λ p. p.1) clock in
    let drawn = ap (λ p. p.1) named in
    let same_db = ap (λ x. x.db) begun.1 ∙ ap (λ x. x.db) ticked ∙ ap (λ x. x.db) drawn in
    let same_id =
      ap (λ x. runtime.uuid (x.calls + 1)) begun.1
      ∙ ap (λ x. runtime.uuid x.calls) ticked
      ∙ ok_injective (ap (λ p. p.0) named) in
    let unused : lookup new.id w3.db.packages_by_id ≡ none =
      subst (λ m. lookup new.id m.packages_by_id ≡ none) same_db
        (subst (λ i. lookup (compact_id i) w.db.packages_by_id ≡ none) same_id fresh) in
    let stored = write_ok {s = s} (create_package new) w3 w4 u' (
      catch_as_ok {s = s} (translate_repo_error "package already exists")
        (write (create_package new)) w3 w4 u' created) in
    let indexed =
      create_package-IsIndexed new w3.db w4.db unused stored (subst IsIndexed same_db x) in
    let indexed' =
      create_tracks-IsIndexed new.id new.tracks n w4.db w5.db
        (write_ok {s = s} (create_tracks new.id new.tracks) w4 w5 n tracked) indexed in
    let may = (require_permission_iff identity perm_account_register_package).0 begun.0 in
    let same_pkg = ok_injective (ap (λ p. p.0) h5) in
    (
      may.0,
      may.1,
      subst IsIndexed (ap (λ p. p.1.db) h5) indexed',
      ap (λ p. p.owner_account_id) (sym same_pkg),
      ap (λ p. p.name) (sym same_pkg),
    )
