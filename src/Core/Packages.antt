-- ===== src/Core/Packages.antt =====
-- Packages, their tracks and publishers.
use charm_registry.Prelude.{ℕ, String, Bool, Option, List}
use charm_registry.Prelude.Maps.{Map}
use charm_registry.Core.Accounts.{Time}

pub record Float64 : Type 0 where
  pub bits : ℕ

pub record Media : Type 0 where
  pub type : String
  pub url : String

pub record Track : Type 0 where
  pub name : String
  pub version_pattern : Option String
  pub automatic_phasing_percentage : Option Float64
  pub created_at : Time

pub record TrackGuardrail : Type 0 where
  pub pattern_text : String
  pub created_at : Time

pub record Publisher : Type 0 where
  pub id : String
  pub username : String
  pub display_name : String
  pub email : String
  pub validation : String

pub record Package : Type 0 where
  pub id : String
  pub name : String
  pub type : String
  pub private : Bool
  pub status : String
  pub owner_account_id : String
  pub authority : Option String
  pub contact : Option String
  pub default_track : Option String
  pub description : Option String
  pub summary : Option String
  pub title : Option String
  pub website : Option String
  pub links : Map (List String)
  pub media : List Media
  pub track_guardrails : List TrackGuardrail
  pub tracks : List Track
  pub publisher : Publisher
  pub store : String
  pub created_at : Time
  pub updated_at : Time
