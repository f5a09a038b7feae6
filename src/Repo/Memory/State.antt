-- ===== src/Repo/Memory/State.antt =====
-- The state of the in-memory repository, and what its methods leave to Go.
use Prim.Native.Char.{Char}
use mathlib.Core.List.{Perm}
use charm_registry.Prelude.{List, [], Option}
use charm_registry.Prelude.Maps.{Map}
use charm_registry.Core.{
  Account, StoreToken, Package, Upload, Revision, ResourceDefinition, ResourceRevision, Release,
}

-- The mutex is left out: each method holds it from its first line to its last.
pub record Memory : Type 0 where
  pub accounts : Map Account
  pub accounts_by_id : Map Account
  pub tokens : Map StoreToken
  pub packages : Map Package
  pub packages_by_id : Map Package
  pub uploads : Map Upload
  pub revisions : Map (List Revision)
  pub resource_defs : Map (Map ResourceDefinition)
  pub resource_revisions : Map (List ResourceRevision)
  pub releases : Map (Map Release)

-- NewMemory
abbrev pub new_memory : Memory
new_memory = record {
  accounts = [];
  accounts_by_id = [];
  tokens = [];
  packages = [];
  packages_by_id = [];
  uploads = [];
  revisions = [];
  resource_defs = [];
  resource_revisions = [];
  releases = [];
}

-- A loop `range m` visits the entries of `m` in an order that the language leaves open: some
-- rearrangement of them.
pub record Platform : Type 1 where
  pub visit : {V : Type 0} → Map V → Map V
  -- The lower case of a character beyond ASCII, by the tables of the package unicode.
  pub lower_case : Char → Char
  pub visit-perm : {V : Type 0} (m : Map V) → Perm (visit m) m

-- m[k] of a map of slices: the empty slice where the key is missing.
abbrev pub slice_or_nil {ℓ} : {A : Type ℓ} → Option (List A) → List A
slice_or_nil Option.none = []
slice_or_nil (Option.some xs) = xs
