-- ===== src/Repo/Postgres/Access.antt =====
-- canAccess of internal/repo/postgres_packages.go: the owner of a package, and the collaborators
-- of `package_acl` in person or through a group.
pub mod Roles
use charm_registry.Prelude.{
  ℕ, String, Bool, true, false, not, ◌&&◌, ◌||◌, none, some, List, [], ◌∷◌, ◌==◌, ◌≡◌, ◌↔◌, any,
  contains, if◌then◌else◌, arith, refl,
}
use charm_registry.Errors.{Result, ok, err, not_found}
use charm_registry.Repo.Postgres.Tables.{AclRow, MemberRow, PackageRow, Tables, package_row}

-- The LEFT JOIN with account_group_members: some member of the group that the entry names.
unfoldable pub through_group : String → AclRow → List MemberRow → Bool
through_group account_id acl members =
    any
      (λ member.
        acl.principal_type == "group"
        && acl.principal_id == member.group_id
        && member.account_id == account_id)
      members

-- The WHERE of the query, for one entry.
unfoldable pub grants : String → String → List String → List MemberRow → AclRow → Bool
unfolding through_group
grants package_id account_id roles members acl =
    acl.package_id == package_id
    && contains acl.role roles
    && (acl.principal_type == "account" && acl.principal_id == account_id
        || through_group account_id acl members)

-- `roles` of canAccess.
unfoldable pub roles_of : Bool → List String
roles_of manage = if manage then "editor" ∷ "owner" ∷ [] else "viewer" ∷ "editor" ∷ "owner" ∷ []

-- SELECT EXISTS
unfoldable pub is_collaborator : Bool → String → String → Tables → Bool
unfolding grants roles_of
is_collaborator manage package_id account_id t =
    any (grants package_id account_id (roles_of manage) t.members) t.package_acl

-- canAccess
unfoldable pub can_access : Bool → String → String → Tables → Result Bool
unfolding package_row is_collaborator
can_access manage package_id account_id t = elim (package_row package_id t) [
  | none ↦ err not_found
  | some row ↦
      if not manage && not row.private
      then ok true
      else if account_id == ""
      then ok false
      else if row.owner_account_id == account_id
      then ok true
      else ok (is_collaborator manage package_id account_id t)
]

-- CanViewPackage
unfoldable pub can_view_package : String → String → Tables → Result Bool
unfolding can_access
can_view_package package_id account_id t = can_access false package_id account_id t

-- CanManagePackage
unfoldable pub can_manage_package : String → String → Tables → Result Bool
unfolding can_access
can_manage_package package_id account_id t = can_access true package_id account_id t
