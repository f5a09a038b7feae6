-- ===== src/Repo/Postgres/Packages.antt =====
-- internal/repo/postgres_packages.go: the packages, but for canAccess (Access) and the search.
pub mod Deletion
use charm_registry.Prelude.{
  String, Bool, true, false, not, ◌||◌, ◌&&◌, Option, none, some, List, [], ◌∷◌, ◌++◌, ◌==◌, find?,
  keep, any, if◌then◌else◌,
}
use charm_registry.Core.{Account, Package}
use charm_registry.Errors.{Result, ok, err, not_found, conflict}
use charm_registry.Repo.Postgres.Tables.{
  AclRow, MemberRow, PackageRow, TrackRow, Tables, has_package, missing_reference,
}

-- The columns that CreatePackage inserts.
unfoldable pub row_of : Package → PackageRow
row_of pkg = record {
  id = pkg.id;
  name = pkg.name;
  type = pkg.type;
  private = pkg.private;
  status = pkg.status;
  owner_account_id = pkg.owner_account_id;
  authority = pkg.authority;
  contact = pkg.contact;
  default_track = pkg.default_track;
  description = pkg.description;
  summary = pkg.summary;
  title = pkg.title;
  website = pkg.website;
  links = pkg.links;
  media = pkg.media;
  track_guardrails = pkg.track_guardrails;
  created_at = pkg.created_at;
  updated_at = pkg.updated_at;
}

-- CreatePackage: a "duplicate key" of its id or its name is ErrConflict.
unfoldable pub create_package : Package → Tables → Result Tables
unfolding row_of
create_package pkg t =
    if any (λ row. row.id == pkg.id || row.name == pkg.name) t.packages
    then err conflict
    else if any (λ account. account.id == pkg.owner_account_id) t.accounts
    then ok (record t { packages = t.packages ++ row_of pkg ∷ [] })
    else err missing_reference

-- The SET of UpdatePackage: id, name, type, owner and time of creation stay.
unfoldable pub set_columns : Package → PackageRow → PackageRow
set_columns pkg row = record row {
  private = pkg.private;
  status = pkg.status;
  authority = pkg.authority;
  contact = pkg.contact;
  default_track = pkg.default_track;
  description = pkg.description;
  summary = pkg.summary;
  title = pkg.title;
  website = pkg.website;
  links = pkg.links;
  media = pkg.media;
  track_guardrails = pkg.track_guardrails;
  updated_at = pkg.updated_at;
}

unfoldable pub set_rows : Package → List PackageRow → List PackageRow
unfolding set_columns
set_rows pkg [] = []
set_rows pkg (row ∷ rows) =
    (if row.id == pkg.id then set_columns pkg row else row) ∷ set_rows pkg rows

-- UpdatePackage
unfoldable pub update_package : Package → Tables → Result Tables
unfolding set_rows has_package
update_package pkg t =
    if has_package pkg.id t
    then ok (record t { packages = set_rows pkg t.packages })
    else err not_found

-- The row of the package goes, and ON DELETE CASCADE the rows that refer to it.
unfoldable pub cascade : String → Tables → Tables
cascade package_id t = record t {
  packages = keep (λ row. not (row.id == package_id)) t.packages;
  package_acl = keep (λ row. not (row.package_id == package_id)) t.package_acl;
  tracks = keep (λ row. not (row.package_id == package_id)) t.tracks;
  revisions = keep (λ row. not (row.package_id == package_id)) t.revisions;
  releases = keep (λ row. not (row.package_id == package_id)) t.releases;
}

-- DeletePackage
unfoldable pub delete_package : String → Tables → Result Tables
unfolding has_package cascade
delete_package package_id t =
    if has_package package_id t then ok (cascade package_id t) else err not_found

-- scanPackage, on the columns of a package and of its owner.
unfoldable pub scan_package : PackageRow → Account → Package
scan_package row owner = record {
  id = row.id;
  name = row.name;
  type = row.type;
  private = row.private;
  status = row.status;
  owner_account_id = row.owner_account_id;
  authority = row.authority;
  contact = row.contact;
  default_track = row.default_track;
  description = row.description;
  summary = row.summary;
  title = row.title;
  website = row.website;
  links = row.links;
  media = row.media;
  track_guardrails = row.track_guardrails;
  tracks = [];
  publisher = record {
    id = owner.id;
    username = owner.username;
    display_name = owner.display_name;
    email = owner.email;
    validation = owner.validation;
  };
  store = "";
  created_at = row.created_at;
  updated_at = row.updated_at;
}

-- JOIN accounts a ON a.id = p.owner_account_id
unfoldable pub owner_of : PackageRow → Tables → Option Account
owner_of row t = find? (λ account. account.id == row.owner_account_id) t.accounts

-- packageQuery with a WHERE, and scanPackages.
unfoldable pub package_query : (PackageRow → Bool) → List PackageRow → Tables → List Package
unfolding scan_package owner_of
package_query condition [] t = []
package_query condition (row ∷ rows) t =
    let rest = package_query condition rows t in
    if condition row
    then elim (owner_of row t) [ none ↦ rest | some owner ↦ scan_package row owner ∷ rest ]
    else rest

-- QueryRow, scanPackage and the test for pgx.ErrNoRows.
unfoldable pub first_package : List Package → Result Package
first_package [] = err not_found
first_package (pkg ∷ rest) = ok pkg

-- GetPackageByName
unfoldable pub get_package_by_name : String → Tables → Result Package
unfolding package_query first_package
get_package_by_name name t = first_package (package_query (λ row. row.name == name) t.packages t)

-- GetPackageByID
unfoldable pub get_package_by_id : String → Tables → Result Package
unfolding package_query first_package
get_package_by_id package_id t =
    first_package (package_query (λ row. row.id == package_id) t.packages t)

-- The LEFT JOIN of ListPackagesForAccount with account_group_members.
unfoldable pub in_group : String → AclRow → List MemberRow → Bool
in_group account_id acl members =
    any
      (λ member.
        acl.principal_type == "group"
        && acl.principal_id == member.group_id
        && member.account_id == account_id)
      members

-- The EXISTS of ListPackagesForAccount.
unfoldable pub collaborates : String → Tables → PackageRow → Bool
unfolding in_group
collaborates account_id t row =
    any
      (λ acl.
        acl.package_id == row.id
        && (acl.principal_type == "account" && acl.principal_id == account_id
            || in_group account_id acl t.members))
      t.package_acl

-- ListPackagesForAccount
unfoldable pub list_packages_for_account : String → Bool → Tables → Result (List Package)
unfolding package_query collaborates
list_packages_for_account account_id include_collaborations t = ok (
    package_query
      (λ row.
        row.owner_account_id == account_id
        || include_collaborations && collaborates account_id t row)
      t.packages t)
