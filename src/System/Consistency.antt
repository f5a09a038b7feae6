-- ===== src/System/Consistency.antt =====
-- What is consistent in a state of the repository in memory.
use mathlib.Core.Path.{subst}
use charm_registry.Prelude.{◌≡◌, arith}
use charm_registry.Prelude.Maps.{lookup}
use charm_registry.Prelude.Keyed.{Entries}
use charm_registry.Repo.Memory.State.{Memory, slice_or_nil, new_memory}
use charm_registry.Repo.Memory.Consistency.{
  AccountsAgree, HashOf, UploadAt, ReleasesOf, DefinitionsOf,
}
use charm_registry.Repo.Memory.Packages.Index.{IsIndexed, IsIndexed-new_memory}
use charm_registry.Service.Revisions.Numbering.{IsNumbered, NumberedFrom, IsNumbered-new_memory}
use charm_registry.Repo.Memory.Revisions.{revisions_of}

-- The maps of packages agree, the revisions of every package are numbered from 1 on, the maps of
-- accounts agree, and every token, upload, release and definition stands under its own key.
pub record IsConsistent (m : Memory) : Type 0 where
  pub packages : IsIndexed m
  pub revisions : IsNumbered m
  pub accounts : AccountsAgree m.accounts m.accounts_by_id
  pub tokens : Entries HashOf m.tokens
  pub uploads : Entries UploadAt m.uploads
  pub releases : Entries ReleasesOf m.releases
  pub definitions : Entries DefinitionsOf m.resource_defs

-- The parts of the state that packages and revisions are read from.
pub other_fields-IsIndexed :
    (m m' : Memory)
    → m.packages ≡ m'.packages
    → m.packages_by_id ≡ m'.packages_by_id
    → IsIndexed m
    → IsIndexed m'
other_fields-IsIndexed m m' p q x = record {
  by_name = λ n pkg h. ground (arith, x.by_name n pkg);
  by_id = λ i pkg h. ground (arith, x.by_id i pkg);
}

pub other_fields-IsNumbered :
    (m m' : Memory) → m.revisions ≡ m'.revisions → IsNumbered m → IsNumbered m'
unfolding revisions_of
other_fields-IsNumbered m m' p x package_id =
    subst (λ rs. NumberedFrom 1 (slice_or_nil (lookup package_id rs))) p (x package_id)

pub IsConsistent-new_memory : IsConsistent new_memory
unfolding lookup
IsConsistent-new_memory = record {
  packages = IsIndexed-new_memory;
  revisions = IsNumbered-new_memory;
  accounts = record { by_subject = λ s a h. cc; by_id = λ i a h. cc };
  tokens = tt;
  uploads = tt;
  releases = tt;
  definitions = tt;
}

-- A write that leaves packages and revisions as they are.
pub besides_packages :
    (m m' : Memory)
    → IsConsistent m
    → m.packages ≡ m'.packages
    → m.packages_by_id ≡ m'.packages_by_id
    → m.revisions ≡ m'.revisions
    → AccountsAgree m'.accounts m'.accounts_by_id
    → Entries HashOf m'.tokens
    → Entries UploadAt m'.uploads
    → Entries ReleasesOf m'.releases
    → Entries DefinitionsOf m'.resource_defs
    → IsConsistent m'
besides_packages m m' x p q r accounts tokens uploads releases definitions = record {
  packages = other_fields-IsIndexed m m' p q x.packages;
  revisions = other_fields-IsNumbered m m' r x.revisions;
  accounts = accounts;
  tokens = tokens;
  uploads = uploads;
  releases = releases;
  definitions = definitions;
}
