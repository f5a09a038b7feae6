-- ===== src/Core/Accounts.antt =====
-- Accounts, store tokens and identities.
use charm_registry.Prelude.{ℕ, String, Bool, Option, List}

abbrev pub Time : Type 0
Time = ℕ

pub record Account : Type 0 where
  pub id : String
  pub subject : String
  pub username : String
  pub display_name : String
  pub email : String
  pub validation : String
  pub created_at : Time

pub record PackageSelector : Type 0 where
  pub id : String
  pub name : String
  pub type : String

pub record StoreToken : Type 0 where
  pub session_id : String
  pub token_hash : String
  pub account_id : String
  pub description : Option String
  pub packages : List PackageSelector
  pub channels : List String
  pub permissions : List String
  pub valid_since : Time
  pub valid_until : Time
  pub revoked_at : Option Time
  pub revoked_by : Option String

pub record Identity : Type 0 where
  pub account : Account
  pub token : Option StoreToken
  pub authenticated : Bool

-- The zero value `core.Account{}`.
abbrev pub no_account : Account
no_account = record {
  id = "";
  subject = "";
  username = "";
  display_name = "";
  email = "";
  validation = "";
  created_at = 0;
}

-- The zero value `core.Identity{}`.
abbrev pub anonymous : Identity
anonymous = record { account = no_account; token = Option.none; authenticated = Bool.false }
