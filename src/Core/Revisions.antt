-- ===== src/Core/Revisions.antt =====
-- Charm revisions, resources, releases and uploads.
use charm_registry.Prelude.{ℕ, String, Bool, Option, List, ℤ}
use charm_registry.Prelude.Maps.{Map}
use charm_registry.Core.Accounts.{Time}
use charm_registry.Core.Packages.{Float64}

pub record Base : Type 0 where
  pub architecture : String
  pub architectures : List String
  pub channel : String
  pub name : String

pub record Relation : Type 0 where
  pub interface : String

pub record Download : Type 0 where
  pub url : String
  pub size : ℕ
  pub hash_sha256 : String
  pub hash_sha384 : String
  pub hash_sha512 : String
  pub hash_sha3384 : String

pub record ResourceRevision : Type 0 where
  pub id : String
  pub resource_id : String
  pub name : String
  pub type : String
  pub description : String
  pub filename : String
  pub revision : ℤ
  pub created_at : Time
  pub size : ℕ
  pub sha256 : String
  pub sha384 : String
  pub sha512 : String
  pub sha3384 : String
  pub object_key : String
  pub bases : List Base
  pub architectures : List String
  pub oci_image_digest : String
  pub oci_image_blob : String
  pub download : Download

pub record Revision : Type 0 where
  pub id : String
  pub package_id : String
  pub revision : ℤ
  pub version : String
  pub status : String
  pub created_at : Time
  pub created_by : String
  pub size : ℕ
  pub sha256 : String
  pub sha384 : String
  pub object_key : String
  pub metadata_yaml : String
  pub config_yaml : String
  pub actions_yaml : String
  pub bundle_yaml : String
  pub readme_md : String
  pub bases : List Base
  pub attributes : Map String
  pub relations : Map (Map Relation)
  pub subordinate : Bool
  pub resources : List ResourceRevision

pub record ResourceDefinition : Type 0 where
  pub id : String
  pub package_id : String
  pub name : String
  pub type : String
  pub description : String
  pub filename : String
  pub optional : Bool
  pub created_at : Time

pub record ReleaseResourceRef : Type 0 where
  pub name : String
  pub revision : Option ℤ

pub record Release : Type 0 where
  pub id : String
  pub package_id : String
  pub channel : String
  pub revision : ℤ
  pub base : Option Base
  pub resources : List ReleaseResourceRef
  pub when : Time
  pub expiration_date : Option Time
  pub progressive : Option Float64

pub record ApiError : Type 0 where
  pub code : String
  pub message : String

pub record Upload : Type 0 where
  pub id : String
  pub filename : String
  pub object_key : String
  pub size : ℕ
  pub sha256 : String
  pub sha384 : String
  pub status : String
  pub kind : String
  pub created_at : Time
  pub approved_at : Option Time
  pub revision : Option ℤ
  pub errors : List ApiError

-- The zero value `core.Download{}`.
abbrev pub no_download : Download
no_download = record {
  url = "";
  size = 0;
  hash_sha256 = "";
  hash_sha384 = "";
  hash_sha512 = "";
  hash_sha3384 = "";
}
