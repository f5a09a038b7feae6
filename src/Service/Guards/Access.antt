-- ===== src/Service/Guards/Access.antt =====
-- Who may see and who may manage a package.
use charm_registry.Prelude.{
  String, ◌≡◌, refl, sym, ◌∙◌, ◌↔◌, ◌⊎◌, inl, inr, Bool, true, false, arith, Bool-cases,
}
use charm_registry.Core.{Identity, Package}
use charm_registry.Repo.Interface.{Repository}
use charm_registry.Errors.{ok}
use charm_registry.Service.Guards.{
  perm_package_view, check_allowed, require_private_view, require_package_view,
  require_package_manage,
}
use charm_registry.Service.Guards.Permissions.{
  MayUse, MayTouch, require_permission_iff, check_selectors_iff,
}

module _ (repo : Repository) where
  -- The caller is authenticated, the token grants the permission and is not restricted to other
  -- packages, and the repository lets the account manage the package.
  pub record MayManage (identity : Identity) (pkg : Package) (permission : String) (db : repo.State)
      : Type 0 where
    pub authenticated : identity.authenticated ≡ true
    pub permitted : MayUse identity.token permission
    pub allowed : repo.can_manage_package pkg.id identity.account.id db ≡ ok true
    pub selected : MayTouch identity.token pkg

  -- requirePackageManage lets a caller through exactly when the caller is authenticated, the token,
  -- if there is one, grants the permission and is not restricted to other packages, and the
  -- repository lets the account manage the package.
  pub require_package_manage_iff :
      (identity : Identity) (pkg : Package) (permission : String) (db : repo.State)
      → (require_package_manage repo identity pkg permission db ≡ ok tt)
        ↔ MayManage identity pkg permission db
  unfolding require_package_manage check_allowed
  require_package_manage_iff identity pkg permission db =
      let (may, may') = require_permission_iff identity permission in
      let (touch, touch') = check_selectors_iff identity.token pkg in
      (
        λ h. record {
          authenticated = (may (ground arith)).0;
          permitted = (may (ground arith)).1;
          allowed = ground arith;
          selected = touch (ground arith);
        },
        λ h. ground (arith, may' (h.authenticated, h.permitted), touch' h.selected),
      )

  -- The package is public, or the caller is authenticated, the repository lets the account view the
  -- package and the token is not restricted to other packages. Where the caller's token has to grant
  -- the view permission, an authenticated caller's token does.
  pub record MayView (identity : Identity) (pkg : Package) (checked : Bool) (db : repo.State)
      : Type 0 where
    pub visible :
        (pkg.private ≡ false)
        ⊎ ((identity.authenticated ≡ true)
            × (repo.can_view_package pkg.id identity.account.id db ≡ ok true)
            × MayTouch identity.token pkg)
    pub permitted :
        checked ≡ true → identity.authenticated ≡ true → MayUse identity.token perm_package_view

  require_private_view_iff :
      (identity : Identity) (pkg : Package) (checked : Bool) (db : repo.State)
      → (require_private_view repo identity pkg checked db ≡ ok tt) ↔ (
          (identity.authenticated ≡ true)
          × (repo.can_view_package pkg.id identity.account.id db ≡ ok true)
          × MayTouch identity.token pkg
          × (checked ≡ true → MayUse identity.token perm_package_view))
  unfolding require_private_view check_allowed
  require_private_view_iff identity pkg true db =
      let (may, may') = require_permission_iff identity perm_package_view in
      let (touch, touch') = check_selectors_iff identity.token pkg in
      (
        λ h. (ground arith, ground arith, touch (ground arith), λ c. (may (ground arith)).1),
        λ (a, v, t, p). ground (arith, touch' t, may' (a, p refl)),
      )
  require_private_view_iff identity pkg false db =
      let (touch, touch') = check_selectors_iff identity.token pkg in
      (
        λ h. (ground arith, ground arith, touch (ground arith), λ c. cc),
        λ (a, v, t, p). ground (arith, touch' t),
      )

  require_public_view_iff :
      (identity : Identity) (pkg : Package) (checked : Bool) (db : repo.State)
      → pkg.private ≡ false
      → (require_package_view repo identity pkg checked db ≡ ok tt)
        ↔ (checked ≡ true → identity.authenticated ≡ true → MayUse identity.token perm_package_view)
  unfolding require_package_view
  require_public_view_iff identity pkg true db public =
      let (may, may') = require_permission_iff identity perm_package_view in
      (
        λ h c a. (may (ground arith)).1,
        λ p. elim (Bool-cases identity.authenticated) [
          | inl a ↦ ground (arith, may' (a, p refl a))
          | inr a ↦ ground arith
        ],
      )
  require_public_view_iff identity pkg false db public = (λ h c a. cc, λ p. ground arith)

  private_view :
      (identity : Identity) (pkg : Package) (checked : Bool) (db : repo.State)
      → pkg.private ≡ true
      → require_package_view repo identity pkg checked db
        ≡ require_private_view repo identity pkg checked db
  unfolding require_package_view
  private_view identity pkg checked db private = rw private

  view_of_MayView :
      (identity : Identity) (pkg : Package) (checked : Bool) (db : repo.State)
      → pkg.private ≡ true
      → MayView identity pkg checked db
      → (identity.authenticated ≡ true)
        × (repo.can_view_package pkg.id identity.account.id db ≡ ok true)
        × MayTouch identity.token pkg
        × (checked ≡ true → MayUse identity.token perm_package_view)
  view_of_MayView identity pkg checked db private h = elim h.visible [
    | inl public ↦ cc
    | inr (a, v, t) ↦ (a, v, t, λ c. h.permitted c a)
  ]

  -- requirePackageView lets a caller through exactly when the package is public, or the caller is
  -- authenticated, the repository lets the account view it and the token is not restricted to other
  -- packages; and, where the token permission is asked for, an authenticated caller's token grants
  -- the view permission.
  pub require_package_view_iff :
      (identity : Identity) (pkg : Package) (checked : Bool) (db : repo.State)
      → (require_package_view repo identity pkg checked db ≡ ok tt)
        ↔ MayView identity pkg checked db
  require_package_view_iff identity pkg checked db = elim (Bool-cases pkg.private) [
    | inl private ↦
        let (to, from) = require_private_view_iff identity pkg checked db in
        let same = private_view identity pkg checked db private in
        (
          λ h.
              let (a, v, t, p) = to (sym same ∙ h) in
              record { visible = inr (a, v, t); permitted = λ c _. p c },
          λ h. same ∙ from (view_of_MayView identity pkg checked db private h),
        )
    | inr public ↦
        let (to, from) = require_public_view_iff identity pkg checked db public in
        (λ h. record { visible = inl public; permitted = to h }, λ h. from h.permitted)
  ]
