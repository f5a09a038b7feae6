-- ===== src/Service/Guards/Permissions.antt =====
-- What the guards on permissions, packages and channels let through.
use charm_registry.Prelude.{
  String, ◌≡◌, ◌≢◌, refl, ◌↔◌, ◌⊎◌, inl, inr, true, not, ◌&&◌, Option, none, some, List, [], ◌∷◌,
  eq_iff, arith, any, is_empty, contains, Any, if◌then◌else◌,
}
use charm_registry.Core.{Identity, Package, PackageSelector, StoreToken}
use charm_registry.Errors.{ok, err, new_error}
use charm_registry.Text.{has_prefix}
use charm_registry.Service.Helpers.{token_allows_package, selects}
use charm_registry.Service.Guards.{
  perm_package_manage, item_grants, check_items, check_permission, require_permission,
  check_selectors, check_channel, enforce_channel_restriction,
}

-- A list of permissions grants one that it holds, and every package permission if it holds
-- "package-manage".
abbrev pub Grants : List String → String → Type 0
Grants permissions permission =
    Any
      (λ item.
        (item ≡ permission)
        ⊎ ((item ≡ perm_package_manage) × (has_prefix permission "package-" ≡ true)))
      permissions

-- A token with no permissions listed is not restricted, and neither is a caller with no token.
abbrev pub MayUse : Option StoreToken → String → Type 0
MayUse none permission = Unit
MayUse (some token) permission = (token.permissions ≡ []) ⊎ Grants token.permissions permission

any-item_grants :
    (permission : String) (items : List String)
    → (any (item_grants permission) items ≡ true) ↔ Grants items permission
unfolding item_grants
any-item_grants permission [] = (λ h. cc, λ h. absurd h)
any-item_grants permission (item ∷ items) =
    let (to, from) = any-item_grants permission items in
    (
      λ h. ground (arith, eq_iff item permission, eq_iff item perm_package_manage, to),
      λ h. ground (arith, eq_iff item permission, eq_iff item perm_package_manage, from),
    )

check_items_iff :
    (items : List String) (permission : String)
    → (check_items items permission ≡ ok tt) ↔ ((items ≡ []) ⊎ Grants items permission)
unfolding check_items
check_items_iff [] permission = (λ h. inl refl, λ h. refl)
check_items_iff (item ∷ items) permission =
    let (to, from) = any-item_grants permission (item ∷ items) in
    (λ h. inr (to (ground arith)), λ h. elim h [ inl e ↦ cc | inr g ↦ ground (arith, from g) ])

check_permission_iff :
    (token : Option StoreToken) (permission : String)
    → (check_permission token permission ≡ ok tt) ↔ MayUse token permission
unfolding check_permission
check_permission_iff none permission = (λ h. tt, λ h. refl)
check_permission_iff (some token) permission = check_items_iff token.permissions permission

-- requirePermission lets a caller through exactly when the caller is authenticated and the token,
-- if there is one, lists no permissions or grants the one that is asked for.
pub require_permission_iff :
    (identity : Identity) (permission : String)
    → (require_permission identity permission ≡ ok tt)
      ↔ ((identity.authenticated ≡ true) × MayUse identity.token permission)
unfolding require_permission
require_permission_iff identity permission =
    let (to, from) = check_permission_iff identity.token permission in
    (λ h. (ground arith, to (ground arith)), λ h. ground (arith, from h.1))

-- A selector names a package by its ID or by its name.
abbrev pub Selects : Package → PackageSelector → Type 0
Selects pkg c = ((c.id ≢ "") × (c.id ≡ pkg.id)) ⊎ ((c.name ≢ "") × (c.name ≡ pkg.name))

-- A token with no packages listed is not restricted.
abbrev pub MayTouch : Option StoreToken → Package → Type 0
MayTouch none pkg = Unit
MayTouch (some token) pkg = (token.packages ≡ []) ⊎ Any (Selects pkg) token.packages

any-selects :
    (pkg : Package) (cs : List PackageSelector)
    → (any (selects pkg) cs ≡ true) ↔ Any (Selects pkg) cs
unfolding selects
any-selects pkg [] = (λ h. cc, λ h. absurd h)
any-selects pkg (c ∷ cs) =
    let (to, from) = any-selects pkg cs in
    (
      λ h.
          ground (
            arith,
            eq_iff c.id "",
            eq_iff c.id pkg.id,
            eq_iff c.name "",
            eq_iff c.name pkg.name,
            to,
          ),
      λ h. ground (
        arith,
        eq_iff c.id "",
        eq_iff c.id pkg.id,
        eq_iff c.name "",
        eq_iff c.name pkg.name,
        from,
      ),
    )

selectors_iff :
    (pkg : Package) (cs : List PackageSelector)
    → ((if not (is_empty cs) && not (any (selects pkg) cs)
          then err (new_error 403 "forbidden" "token does not allow this package")
          else ok (tt {0}))
        ≡ ok tt)
      ↔ ((cs ≡ []) ⊎ Any (Selects pkg) cs)
selectors_iff pkg [] = (λ h. inl refl, λ h. refl)
selectors_iff pkg (c ∷ cs) =
    let (to, from) = any-selects pkg (c ∷ cs) in
    (λ h. inr (to (ground arith)), λ h. elim h [ inl e ↦ cc | inr g ↦ ground (arith, from g) ])

pub check_selectors_iff :
    (token : Option StoreToken) (pkg : Package)
    → (check_selectors token pkg ≡ ok tt) ↔ MayTouch token pkg
unfolding check_selectors token_allows_package
check_selectors_iff none pkg = (λ h. tt, λ h. refl)
check_selectors_iff (some token) pkg = selectors_iff pkg token.packages

-- A token with no channels listed is not restricted.
abbrev pub MayRelease : Option StoreToken → String → Type 0
MayRelease none channel = Unit
MayRelease (some token) channel =
    (is_empty token.channels ≡ true) ⊎ (contains channel token.channels ≡ true)

-- enforceChannelRestriction lets a release through exactly when the caller has no token, or the
-- token lists no channels or the one of the release.
pub enforce_channel_restriction_iff :
    (identity : Identity) (channel : String)
    → (enforce_channel_restriction identity channel ≡ ok tt) ↔ MayRelease identity.token channel
unfolding enforce_channel_restriction
enforce_channel_restriction_iff identity channel = check_channel_iff identity.token
  where
    check_channel_iff :
        (token : Option StoreToken)
        → (check_channel token channel ≡ ok tt) ↔ MayRelease token channel
    check_channel_iff none = (λ h. tt, λ h. refl)
    check_channel_iff (some token) = (λ h. ground arith, λ h. ground arith)
