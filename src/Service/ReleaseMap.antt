-- ===== src/Service/ReleaseMap.antt =====
-- internal/service/releases.go: ListReleases.
use charm_registry.Prelude.{
  ℕ, String, Bool, true, false, Option, List, [], ◌∷◌, map, ℤ, pos, negsuc, eq_int, leb,
  if◌then◌else◌,
}
use charm_registry.Core.{Time, Identity, Base, Revision, Release, ReleaseResourceRef}
use charm_registry.Errors.{Result, ok, ◌>>=◌}
use charm_registry.Service.Context.{Service}
use charm_registry.Service.Guards.{require_package_view}
use charm_registry.Service.Channels.{ChannelDescriptor, package_channels}
use charm_registry.Service.Packages.{package_named, enrich_package}

pub record ReleaseEntry : Type 0 where
  pub base : Option Base
  pub channel : String
  pub expiration_date : Option Time
  pub resources : List ReleaseResourceRef
  pub revision : ℤ
  pub when : Time

unfoldable pub release_entry : Release → ReleaseEntry
release_entry release = record {
  base = release.base;
  channel = release.channel;
  expiration_date = release.expiration_date;
  resources = release.resources;
  revision = release.revision;
  when = release.when;
}

-- The field sha3-384 holds the SHA-384 of the revision.
pub record RevisionSummary : Type 0 where
  pub bases : List Base
  pub created_at : Time
  pub created_by : String
  pub revision : ℤ
  pub sha3384 : String
  pub size : ℕ
  pub status : String
  pub version : String

unfoldable pub revision_summary : Revision → RevisionSummary
revision_summary revision = record {
  bases = revision.bases;
  created_at = revision.created_at;
  created_by = revision.created_by;
  revision = revision.revision;
  sha3384 = revision.sha384;
  size = revision.size;
  status = revision.status;
  version = revision.version;
}

-- i <= j
abbrev pub le_int : ℤ → ℤ → Bool
le_int (pos i) (pos j) = leb i j
le_int (negsuc i) (negsuc j) = leb j i
le_int (negsuc i) (pos j) = true
le_int (pos i) (negsuc j) = false

-- revisionsMap[rev.Revision] = rev, in a list of the values of the map
unfoldable pub put_revision : Revision → List Revision → List Revision
put_revision rev [] = rev ∷ []
put_revision rev (other ∷ others) =
    if eq_int other.revision rev.revision then rev ∷ others else other ∷ put_revision rev others

-- sort.Slice by number; the numbers of a map are distinct, so the order of the loop does not count
unfoldable pub insert_by_number : RevisionSummary → List RevisionSummary → List RevisionSummary
insert_by_number rev [] = rev ∷ []
insert_by_number rev (other ∷ others) =
    if le_int rev.revision other.revision
    then rev ∷ other ∷ others
    else other ∷ insert_by_number rev others

unfoldable pub sort_by_number : List RevisionSummary → List RevisionSummary
unfolding insert_by_number
sort_by_number [] = []
sort_by_number (rev ∷ revs) = insert_by_number rev (sort_by_number revs)

pub record ReleaseMap : Type 0 where
  pub channel_map : List ReleaseEntry
  pub channels : List ChannelDescriptor
  pub revisions : List RevisionSummary

module _ (s : Service) where
  -- The loop of ListReleases over the releases: the values of revisionsMap after it.
  unfoldable pub released_revisions :
      String → List Release → List Revision → s.repo.State → Result (List Revision)
  unfolding put_revision
  released_revisions package_id [] found db = ok found
  released_revisions package_id (release ∷ releases) found db = do
    rev ← s.repo.get_revision_by_number package_id release.revision db
    released_revisions package_id releases (put_revision rev found) db

  -- ListReleases
  unfoldable pub list_releases : Identity → String → s.repo.State → Result ReleaseMap
  unfolding released_revisions sort_by_number revision_summary release_entry package_channels
      package_named enrich_package
  list_releases identity charm_name db = package_named s charm_name db >>= λ pkg.
      require_package_view s.repo identity pkg true db >>= λ _. do
        enriched ← enrich_package s pkg db
        releases ← s.repo.list_releases enriched.id db
        revisions ← released_revisions enriched.id releases [] db
        ok (record {
          channel_map = map release_entry releases;
          channels = package_channels enriched.tracks;
          revisions = sort_by_number (map revision_summary revisions);
        })
