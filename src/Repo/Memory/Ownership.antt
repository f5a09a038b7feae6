-- ===== src/Repo/Memory/Ownership.antt =====
-- Who may view and manage a package of the repository in memory.
use charm_registry.Prelude.{
  String, ◌≡◌, ◌↔◌, ◌⊎◌, inl, inr, true, false, some, eq_iff, arith, Option-cases,
}
use charm_registry.Prelude.Maps.{lookup}
use charm_registry.Core.{Package}
use charm_registry.Errors.{ok}
use charm_registry.Repo.Memory.State.{Memory}
use charm_registry.Repo.Memory.Packages.{can_view_package, can_manage_package}

-- The memory holds the package under its ID, and the account owns it.
abbrev pub Owns : String → String → Memory → Type 0
Owns account_id package_id m =
    (pkg : Package) × (lookup package_id m.packages_by_id ≡ some pkg)
    × (pkg.owner_account_id ≡ account_id)

-- CanManagePackage answers yes exactly for the owner of a package.
pub can_manage_package_iff :
    (package_id account_id : String) (m : Memory)
    → (can_manage_package package_id account_id m ≡ ok true) ↔ Owns account_id package_id m
unfolding can_manage_package
can_manage_package_iff package_id account_id m =
    elim (Option-cases (lookup package_id m.packages_by_id)) [
      | inl missing ↦ (λ h. ground arith, λ (pkg, found, owner). cc)
      | inr (pkg, found) ↦ (
        λ h. (pkg, found, ground (arith, eq_iff pkg.owner_account_id account_id)),
        λ (pkg', found', owner). ground (arith, eq_iff pkg.owner_account_id account_id),
      )
    ]

-- The memory holds the package under its ID, and it is public or the account owns it.
abbrev pub MayLookAt : String → String → Memory → Type 0
MayLookAt account_id package_id m =
    (pkg : Package) × (lookup package_id m.packages_by_id ≡ some pkg)
    × ((pkg.private ≡ false) ⊎ (pkg.owner_account_id ≡ account_id))

-- CanViewPackage answers yes exactly where the package is held and it is public or the account's.
pub can_view_package_iff :
    (package_id account_id : String) (m : Memory)
    → (can_view_package package_id account_id m ≡ ok true) ↔ MayLookAt account_id package_id m
unfolding can_view_package
can_view_package_iff package_id account_id m =
    elim (Option-cases (lookup package_id m.packages_by_id)) [
      | inl missing ↦ (λ h. ground arith, λ (pkg, found, owner). cc)
      | inr (pkg, found) ↦ (
        λ h. (pkg, found, ground (arith, eq_iff pkg.owner_account_id account_id)),
        λ (pkg', found', shown). ground (arith, eq_iff pkg.owner_account_id account_id),
      )
    ]
