-- ===== src/Core/Archives.antt =====
-- What is read from a charm archive.
use charm_registry.Prelude.{String, Bool, Option, List}
use charm_registry.Prelude.Maps.{Map}
use charm_registry.Core.Revisions.{Relation}

-- The values of type `any` that the code inspects: a string, a list of values, of which the
-- strings are told apart, or anything else.
pub data Any : Type 0 where
  text : String → Any
  items : List (Option String) → Any
  texts : List String → Any
  other : Any

pub record CharmBase : Type 0 where
  pub name : String
  pub channel : String
  pub architecture : String
  pub architectures : List String

pub record CharmResourceDeclaration : Type 0 where
  pub type : String
  pub description : String
  pub filename : String
  pub upstream_source : String

pub record CharmContainer : Type 0 where
  pub resource : String

pub record CharmManifest : Type 0 where
  pub name : String
  pub display_name : String
  pub summary : String
  pub description : String
  pub docs : String
  pub issues : String
  pub source : String
  pub website : Any
  pub subordinate : Bool
  pub bases : List CharmBase
  pub resources : Map CharmResourceDeclaration
  pub containers : Map CharmContainer
  pub provides : Map Relation
  pub requires : Map Relation
  pub peers : Map Relation
  pub assumes : Any

pub record CharmArchive : Type 0 where
  pub metadata_yaml : String
  pub manifest_yaml : String
  pub config_yaml : String
  pub actions_yaml : String
  pub bundle_yaml : String
  pub readme_md : String
  pub manifest : CharmManifest
