-- ===== src/Repo/Postgres/Access/Roles.antt =====
-- Who may view and who may manage a package of the Postgres repository.
use charm_registry.Prelude.{
  String, true, false, List, [], ◌∷◌, ◌==◌, ◌≡◌, inl, inr, any, arith, Option-cases,
}
use charm_registry.Errors.{ok}
use charm_registry.Repo.Postgres.Tables.{AclRow, MemberRow, Tables, package_row}
use charm_registry.Repo.Postgres.Access.{
  grants, roles_of, is_collaborator, can_access, can_view_package, can_manage_package,
}

grants-roles_of :
    (package_id account_id : String) (members : List MemberRow) (acl : AclRow)
    → grants package_id account_id (roles_of true) members acl ≡ true
    → grants package_id account_id (roles_of false) members acl ≡ true
unfolding grants roles_of
grants-roles_of package_id account_id members acl h = ground arith

any-grants :
    (package_id account_id : String) (members : List MemberRow) (acl : List AclRow)
    → any (grants package_id account_id (roles_of true) members) acl ≡ true
    → any (grants package_id account_id (roles_of false) members) acl ≡ true
any-grants package_id account_id members [] h = h
any-grants package_id account_id members (entry ∷ acl) h = ground (
  arith,
  any-grants package_id account_id members acl,
  grants-roles_of package_id account_id members entry,
)

pub is_collaborator-roles :
    (package_id account_id : String) (t : Tables)
    → is_collaborator true package_id account_id t ≡ true
    → is_collaborator false package_id account_id t ≡ true
unfolding is_collaborator
is_collaborator-roles package_id account_id t h =
    any-grants package_id account_id t.members t.package_acl h

-- Whoever can manage a package can view it, and gives an account ID that is not empty: a caller who
-- is not signed in manages nothing.
pub can_manage_package-can_view_package :
    (package_id account_id : String) (t : Tables)
    → can_manage_package package_id account_id t ≡ ok true
    → (can_view_package package_id account_id t ≡ ok true) × ((account_id == "") ≡ false)
unfolding can_manage_package can_view_package can_access
can_manage_package-can_view_package package_id account_id t h =
    elim (Option-cases (package_row package_id t)) [
      | inl missing ↦ ground arith
      | inr (row, found) ↦ ground (arith, is_collaborator-roles package_id account_id t)
    ]
