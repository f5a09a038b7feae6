-- ===== src/Service/Guards.antt =====
-- internal/service/helpers.go, the authorization guards, and the permissions of
-- internal/service/service.go. A guard reads the repository and answers nil or an error.
pub mod Permissions
pub mod Access
use charm_registry.Prelude.{
  String, Bool, true, false, not, ◌&&◌, ◌||◌, Option, none, some, List, [], ◌∷◌, ◌==◌, any,
  is_empty, contains, if◌then◌else◌,
}
use charm_registry.Core.{Identity, Package, StoreToken}
use charm_registry.Repo.Interface.{Repository}
use charm_registry.Errors.{Result, ok, err, new_error, is_ok, ◌>>=◌, ◌>>◌}
use charm_registry.Text.{has_prefix}
use charm_registry.Service.Helpers.{token_allows_package, selects}

abbrev pub perm_account_register_package : String
perm_account_register_package = "account-register-package"

abbrev pub perm_account_view_packages : String
perm_account_view_packages = "account-view-packages"

abbrev pub perm_package_manage : String
perm_package_manage = "package-manage"

abbrev pub perm_package_manage_metadata : String
perm_package_manage_metadata = "package-manage-metadata"

abbrev pub perm_package_manage_releases : String
perm_package_manage_releases = "package-manage-releases"

abbrev pub perm_package_manage_revisions : String
perm_package_manage_revisions = "package-manage-revisions"

abbrev pub perm_package_view : String
perm_package_view = "package-view"

-- defaultPermissions
abbrev pub default_permissions : List String
default_permissions =
    perm_account_register_package ∷ perm_account_view_packages ∷ perm_package_manage
    ∷ perm_package_manage_metadata ∷ perm_package_manage_releases ∷ perm_package_manage_revisions
    ∷ perm_package_view ∷ "package-view-metadata" ∷ "package-view-releases"
    ∷ "package-view-revisions" ∷ []

-- requireAuth
unfoldable pub require_auth : Identity → Result (Unit {0})
require_auth identity =
    if not identity.authenticated
    then err (new_error 401 "unauthorized" "authentication required")
    else ok tt

-- The test of one item in the loop of requirePermission.
unfoldable pub item_grants : String → String → Bool
item_grants permission item =
    item == permission || item == perm_package_manage && has_prefix permission "package-"

unfoldable pub check_items : List String → String → Result (Unit {0})
check_items [] permission = ok tt
check_items (item ∷ items) permission =
    if any (item_grants permission) (item ∷ items)
    then ok tt
    else err (new_error 403 "forbidden" "token does not grant required permission")

-- The rest of requirePermission, by the token.
unfoldable pub check_permission : Option StoreToken → String → Result (Unit {0})
unfolding check_items item_grants
check_permission none permission = ok tt
check_permission (some token) permission = check_items token.permissions permission

-- requirePermission
unfoldable pub require_permission : Identity → String → Result (Unit {0})
unfolding require_auth check_permission
require_permission identity permission = do
  require_auth identity
  check_permission identity.token permission

-- requirePermissionOrAnonymous
unfoldable pub require_permission_or_anonymous : Identity → String → Result (Unit {0})
unfolding require_permission
require_permission_or_anonymous identity permission =
    if not identity.authenticated then ok tt else require_permission identity permission

-- The test of a token's package restriction, in requirePackageView and requirePackageManage.
unfoldable pub check_selectors : Option StoreToken → Package → Result (Unit {0})
unfolding token_allows_package selects
check_selectors none pkg = ok tt
check_selectors (some token) pkg =
    if not (is_empty token.packages) && not (token_allows_package token pkg)
    then err (new_error 403 "forbidden" "token does not allow this package")
    else ok tt

unfoldable pub check_allowed : Bool → String → Result (Unit {0})
check_allowed allowed message =
    if not allowed then err (new_error 403 "forbidden" message) else ok tt

unfoldable pub check_channel : Option StoreToken → String → Result (Unit {0})
check_channel none channel = ok tt
check_channel (some token) channel =
    if is_empty token.channels || contains channel token.channels
    then ok tt
    else err (new_error 403 "forbidden" "token does not allow this channel")

-- enforceChannelRestriction
unfoldable pub enforce_channel_restriction : Identity → String → Result (Unit {0})
unfolding check_channel
enforce_channel_restriction identity channel = check_channel identity.token channel

module _ (repo : Repository) where
  -- requirePackageView of a private package
  unfoldable pub require_private_view : Identity → Package → Bool → repo.State → Result (Unit {0})
  unfolding require_auth check_selectors require_permission check_allowed
  require_private_view identity pkg require_token_permission db = do
    require_auth identity
    allowed ← repo.can_view_package pkg.id identity.account.id db
    check_allowed allowed "package is private"
    check_selectors identity.token pkg
    if require_token_permission then require_permission identity perm_package_view else ok tt

  -- requirePackageView
  unfoldable pub require_package_view : Identity → Package → Bool → repo.State → Result (Unit {0})
  unfolding require_private_view require_permission_or_anonymous
  require_package_view identity pkg require_token_permission db =
      if not pkg.private
      then if require_token_permission
        then require_permission_or_anonymous identity perm_package_view
        else ok tt
      else require_private_view identity pkg require_token_permission db

  -- requirePackageManage
  unfoldable pub require_package_manage :
      Identity → Package → String → repo.State → Result (Unit {0})
  unfolding require_permission check_selectors check_allowed
  require_package_manage identity pkg permission db = do
    require_permission identity permission
    allowed ← repo.can_manage_package pkg.id identity.account.id db
    check_allowed allowed "package management is not allowed"
    check_selectors identity.token pkg

  -- canSeePackage
  unfoldable pub can_see_package : Identity → Package → repo.State → Bool
  unfolding require_package_view
  can_see_package identity pkg db = is_ok (require_package_view identity pkg false db)
