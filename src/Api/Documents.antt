-- ===== src/Api/Documents.antt =====
-- internal/api: what the handlers write as JSON. encoding/json makes the text of a document.
use Prim.Native.Char.{code}
use Prim.Native.String.{String, [], ◌∷◌}
use mathlib.Core.List.{List}
use charm_registry.Prelude.{ℕ, Bool, true, false, Option, ℤ, ltb, eq_nat, ◌||◌, ◌&&◌, if◌then◌else◌}
use charm_registry.Prelude.Maps.{Map}
use charm_registry.Core.{
  Time, Package, Track, TrackGuardrail, Media, Publisher, StoreToken, Release, Revision, Base,
  ResourceRevision, Download,
}
use charm_registry.Service.Root.{RootDocument}
use charm_registry.Service.Tokens.{AccountView, MacaroonView}
use charm_registry.Service.ReleaseMap.{ReleaseMap}
use charm_registry.Service.Revisions.{ReviewView}
use charm_registry.Service.Resources.{ResourceSummary, Credentials}
use charm_registry.Service.Search.{FindResult, InfoResult}
use charm_registry.Service.Refresh.{RefreshAnswer}

-- The map of packageMetadata, by its keys.
pub record Metadata : Type 0 where
  pub authority : Option String
  pub contact : Option String
  pub default_track : Option String
  pub description : Option String
  pub id : String
  pub links : Map (List String)
  pub media : List Media
  pub name : String
  pub private : Bool
  pub publisher : Publisher
  pub status : String
  pub store : String
  pub summary : Option String
  pub title : Option String
  pub track_guardrails : List TrackGuardrail
  pub tracks : List Track
  pub type : String
  pub website : Option String

-- s < t, which compares bytes
unfoldable pub less : String → String → Bool
less [] [] = false
less [] (d ∷ t) = true
less (c ∷ s) [] = false
less (c ∷ s) (d ∷ t) = ltb (code c) (code d) || eq_nat (code c) (code d) && less s t

-- sort.Slice by name. Of two tracks of one name, which a package never has, the order is not fixed
-- there; here it is kept.
unfoldable pub insert_by_name : Track → List Track → List Track
insert_by_name track List.[] = List.◌∷◌ track List.[]
insert_by_name track (List.◌∷◌ other others) =
    if less other.name track.name
    then List.◌∷◌ other (insert_by_name track others)
    else List.◌∷◌ track (List.◌∷◌ other others)

unfoldable pub sort_by_name : List Track → List Track
unfolding insert_by_name
sort_by_name List.[] = List.[]
sort_by_name (List.◌∷◌ track tracks) = insert_by_name track (sort_by_name tracks)

-- packageMetadata
unfoldable pub package_metadata : Package → Metadata
unfolding sort_by_name
package_metadata pkg = record {
  authority = pkg.authority;
  contact = pkg.contact;
  default_track = pkg.default_track;
  description = pkg.description;
  id = pkg.id;
  links = pkg.links;
  media = pkg.media;
  name = pkg.name;
  private = pkg.private;
  publisher = pkg.publisher;
  status = pkg.status;
  store = pkg.store;
  summary = pkg.summary;
  title = pkg.title;
  track_guardrails = pkg.track_guardrails;
  tracks = sort_by_name pkg.tracks;
  type = pkg.type;
  website = pkg.website;
}

-- The tokenView of handleGetTokens.
pub record TokenView : Type 0 where
  pub description : Option String
  pub revoked_at : Option Time
  pub revoked_by : Option String
  pub session_id : String
  pub valid_since : Time
  pub valid_until : Time

unfoldable pub view_of_token : StoreToken → TokenView
view_of_token token = record {
  description = token.description;
  revoked_at = token.revoked_at;
  revoked_by = token.revoked_by;
  session_id = token.session_id;
  valid_since = token.valid_since;
  valid_until = token.valid_until;
}

-- A row of handleListRevisions; the key errors holds an empty list, and sha3-384 the SHA-384.
pub record RevisionRow : Type 0 where
  pub bases : List Base
  pub created_at : Time
  pub created_by : String
  pub revision : ℤ
  pub sha3384 : String
  pub size : ℕ
  pub status : String
  pub version : String

unfoldable pub revision_row : Revision → RevisionRow
revision_row revision = record {
  bases = revision.bases;
  created_at = revision.created_at;
  created_by = revision.created_by;
  revision = revision.revision;
  sha3384 = revision.sha384;
  size = revision.size;
  status = revision.status;
  version = revision.version;
}

-- A row of handleListResourceRevisions.
pub record ResourceRow : Type 0 where
  pub architectures : List String
  pub bases : List Base
  pub created_at : Time
  pub download : Download
  pub filename : String
  pub revision : ℤ

unfoldable pub resource_row : ResourceRevision → ResourceRow
resource_row revision = record {
  architectures = revision.architectures;
  bases = revision.bases;
  created_at = revision.created_at;
  download = revision.download;
  filename = revision.filename;
  revision = revision.revision;
}

-- One constructor for each shape of document, named after its key or its handler. Of a whole store
-- token, the hash and the account are not written.
pub data Document : Type 0 where
  error_list : String → String → Document
  root : RootDocument → Document
  macaroon : String → Document
  token_views : List TokenView → Document
  tokens : List StoreToken → Document
  token_info : MacaroonView → Document
  account : AccountView → Document
  libraries : Document
  registered_id : String → Document
  results : List Metadata → Document
  metadata : Metadata → Document
  package_id : String → Document
  release_map : ReleaseMap → Document
  released : List Release → Document
  tracks_created : ℕ → Document
  found : List FindResult → Document
  info : InfoResult → Document
  refreshed : List RefreshAnswer → Document
  revisions : List RevisionRow → Document
  status_url : String → Document
  review : ReviewView → Document
  upload : Option String → Document
  resources : List ResourceSummary → Document
  resource_revisions : List ResourceRow → Document
  resources_updated : ℕ → Document
  credentials : Credentials → Document
