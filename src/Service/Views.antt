-- ===== src/Service/Views.antt =====
-- The shapes of the answers: a `map[string]any` with fixed keys is a record. Fields whose value is
-- the same in every answer (an empty list or text) are left out.
use charm_registry.Prelude.{ℕ, String, Bool, Option, List, [], ◌∷◌, ℤ, map}
use charm_registry.Prelude.Maps.{Map, lookup}
use charm_registry.Core.{
  Time, Package, Media, Publisher, Base, Relation, Revision, Release, ResourceRevision, Download,
}
use charm_registry.Config.{Config}
use charm_registry.Repo.Memory.State.{slice_or_nil}
use charm_registry.Service.Helpers.{
  charm_download_url, resource_download_url, first_link, first_non_empty, string_value,
}
use charm_registry.Service.Channels.{split_channel}

pub record ChannelView : Type 0 where
  pub base : Option Base
  pub name : String
  pub released_at : Time
  pub risk : String
  pub track : String

-- The map of a release's channel, in Info and packageFindResult.
unfoldable pub channel_view : Release → ChannelView
channel_view release = record {
  base = release.base;
  name = release.channel;
  released_at = release.when;
  risk = (split_channel release.channel).risk;
  track = (split_channel release.channel).track;
}

pub record FileView : Type 0 where
  pub hash_sha256 : String
  pub size : ℕ
  pub url : String

unfoldable pub file_view : Config → String → Revision → FileView
file_view cfg package_id revision = record {
  hash_sha256 = revision.sha256;
  size = revision.size;
  url = charm_download_url cfg package_id revision.revision;
}

pub record RevisionInfo : Type 0 where
  pub actions_yaml : String
  pub attributes : Map String
  pub bases : List Base
  pub bundle_yaml : String
  pub config_yaml : String
  pub created_at : Time
  pub download : FileView
  pub metadata_yaml : String
  pub readme_md : String
  pub relations : Map (Map Relation)
  pub revision : ℤ
  pub subordinate : Bool
  pub version : String

-- revisionToInfo
unfoldable pub revision_to_info : Revision → String → Config → RevisionInfo
unfolding file_view
revision_to_info revision package_id cfg = record {
  actions_yaml = revision.actions_yaml;
  attributes = revision.attributes;
  bases = revision.bases;
  bundle_yaml = revision.bundle_yaml;
  config_yaml = revision.config_yaml;
  created_at = revision.created_at;
  download = file_view cfg package_id revision;
  metadata_yaml = revision.metadata_yaml;
  readme_md = revision.readme_md;
  relations = revision.relations;
  revision = revision.revision;
  subordinate = revision.subordinate;
  version = revision.version;
}

pub record PackageResult : Type 0 where
  pub bugs_url : String
  pub description : String
  pub links : Map (List String)
  pub media : List Media
  pub publisher : Publisher
  pub store_url : String
  pub summary : String
  pub title : String
  pub unlisted : Bool
  pub website : String

-- packageResult
unfoldable pub package_result : Package → PackageResult
package_result pkg =
    let website = string_value pkg.website in
    record {
      bugs_url = first_link (slice_or_nil (lookup "issues" pkg.links));
      description = string_value pkg.description;
      links = pkg.links;
      media = pkg.media;
      publisher = pkg.publisher;
      store_url = first_non_empty (website ∷ pkg.store ∷ []);
      summary = string_value pkg.summary;
      title = string_value pkg.title;
      unlisted = pkg.private;
      website = website;
    }

pub record ResourceView : Type 0 where
  pub name : String
  pub revision : ℤ
  pub type : String
  pub filename : String
  pub description : String
  pub download : Download
  pub created_at : Time

-- The download part of a resource revision.
unfoldable pub resource_download : Config → String → ResourceRevision → Download
resource_download cfg package_id item = record {
  url = resource_download_url cfg package_id item.name item.revision;
  size = item.size;
  hash_sha256 = item.sha256;
  hash_sha384 = item.sha384;
  hash_sha512 = item.sha512;
  hash_sha3384 = item.sha3384;
}

unfoldable pub resource_view : Config → String → ResourceRevision → ResourceView
unfolding resource_download
resource_view cfg package_id resource = record {
  name = resource.name;
  revision = resource.revision;
  type = resource.type;
  filename = resource.filename;
  description = resource.description;
  download = resource_download cfg package_id resource;
  created_at = resource.created_at;
}

-- releaseResourcesToDownloads
unfoldable pub release_resources_to_downloads :
    String → List ResourceRevision → Config → List ResourceView
unfolding resource_view
release_resources_to_downloads package_id resources cfg =
    map (resource_view cfg package_id) resources

-- attachResourceDownload
unfoldable pub attach_resource_download : Config → String → ResourceRevision → ResourceRevision
unfolding resource_download
attach_resource_download cfg package_id item = record item {
  download = resource_download cfg package_id item;
}

pub record RefreshEntity : Type 0 where
  pub created_at : Time
  pub download : FileView
  pub id : String
  pub name : String
  pub publisher : Publisher
  pub resources : List ResourceView
  pub revision : ℤ
  pub summary : String
  pub type : String
  pub version : String
  pub bases : List Base
  pub config_yaml : String
  pub metadata_yaml : String

-- refreshEntity
unfoldable pub refresh_entity : Package → Revision → List ResourceRevision → Config → RefreshEntity
unfolding file_view release_resources_to_downloads
refresh_entity pkg revision resources cfg = record {
  created_at = revision.created_at;
  download = file_view cfg pkg.id revision;
  id = pkg.id;
  name = pkg.name;
  publisher = pkg.publisher;
  resources = release_resources_to_downloads pkg.id resources cfg;
  revision = revision.revision;
  summary = string_value pkg.summary;
  type = pkg.type;
  version = revision.version;
  bases = revision.bases;
  config_yaml = revision.config_yaml;
  metadata_yaml = revision.metadata_yaml;
}
