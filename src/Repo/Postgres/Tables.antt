-- ===== src/Repo/Postgres/Tables.antt =====
-- The tables of internal/repo/migrations/0001_init.sql that the modelled statements read and
-- write. A table is the list of its rows; a column of JSON is the value that it encodes; the
-- errors are those of the table's constraints.
use Prim.Native.String.{◌++◌}
use charm_registry.Prelude.{String, Bool, List, Option, none, some, find?, ◌==◌, any}
use charm_registry.Prelude.Maps.{Map}
use charm_registry.Core.{
  Account, StoreToken, Upload, Revision, Release, Time, Float64, Media, TrackGuardrail,
}
use charm_registry.Errors.{Error, failure}

-- A row of `packages`.
pub record PackageRow : Type 0 where
  pub id : String
  pub name : String
  pub type : String
  pub private : Bool
  pub status : String
  pub owner_account_id : String
  pub authority : Option String
  pub contact : Option String
  pub default_track : Option String
  pub description : Option String
  pub summary : Option String
  pub title : Option String
  pub website : Option String
  pub links : Map (List String)
  pub media : List Media
  pub track_guardrails : List TrackGuardrail
  pub created_at : Time
  pub updated_at : Time

-- A row of `package_acl`.
pub record AclRow : Type 0 where
  pub package_id : String
  pub principal_type : String
  pub principal_id : String
  pub role : String

-- A row of `account_group_members`.
pub record MemberRow : Type 0 where
  pub group_id : String
  pub account_id : String

-- A row of `tracks`.
pub record TrackRow : Type 0 where
  pub package_id : String
  pub name : String
  pub version_pattern : Option String
  pub automatic_phasing_percentage : Option Float64
  pub created_at : Time

pub record Tables : Type 0 where
  pub accounts : List Account
  pub store_tokens : List StoreToken
  pub packages : List PackageRow
  pub package_acl : List AclRow
  pub members : List MemberRow
  pub tracks : List TrackRow
  pub uploads : List Upload
  pub revisions : List Revision
  pub releases : List Release

-- The row of `packages` under a primary key.
unfoldable pub package_row : String → Tables → Option PackageRow
package_row package_id t = find? (λ row. row.id == package_id) t.packages

-- REFERENCES packages(id)
unfoldable pub has_package : String → Tables → Bool
has_package package_id t = any (λ row. row.id == package_id) t.packages

-- The errors of a violated constraint.
abbrev pub duplicate_key : Error
duplicate_key = failure "duplicate key value violates unique constraint"

abbrev pub missing_reference : Error
missing_reference = failure "insert or update violates foreign key constraint"

-- The channel that the WHERE of ResolveDefaultRelease asks for.
unfoldable pub default_channel : PackageRow → String
default_channel row = elim row.default_track [
  | none ↦ "latest/stable"
  | some track ↦ track ++ "/stable"
]
