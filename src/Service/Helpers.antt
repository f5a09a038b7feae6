-- ===== src/Service/Helpers.antt =====
-- internal/service/helpers.go: selectors, manifests, links, strings and errors. A method of the Go
-- type Service that only reads its configuration takes the configuration here.
use Prim.Native.String.{◌++◌}
use mathlib.Core.List
use charm_registry.Prelude.{
  String, Bool, not, ◌&&◌, ◌||◌, Option, none, some, List, [], ◌∷◌, ◌==◌, ℤ, any, is_empty, map,
  if◌then◌else◌,
}
use charm_registry.Core.{PackageSelector, StoreToken, Package, CharmManifest, CharmBase, Base}
use charm_registry.Config.{Config}
use charm_registry.Errors.{Error, service, not_found, conflict, failure, new_error}
use charm_registry.Text.{trim_prefix, replace_char, remove_char}
use charm_registry.Text.Decimal.{itoa}
use charm_registry.Text.FilePath.{join, ext}

-- firstNonEmpty
unfoldable pub first_non_empty : List String → String
first_non_empty [] = ""
first_non_empty (value ∷ values) = if value == "" then first_non_empty values else value

-- stringPtr
unfoldable pub string_ptr : String → Option String
string_ptr value = if value == "" then none else some value

-- stringValue
unfoldable pub string_value : Option String → String
string_value none = ""
string_value (some value) = value

-- firstLink
unfoldable pub first_link : List String → String
first_link [] = ""
first_link (value ∷ values) = value

-- channelOrDefault
unfoldable pub channel_or_default : Option String → String
channel_or_default none = ""
channel_or_default (some channel) = if channel == "" then "" else channel

-- One candidate of tokenAllowsPackage.
unfoldable pub selects : Package → PackageSelector → Bool
selects pkg candidate =
    not (candidate.id == "") && candidate.id == pkg.id
    || not (candidate.name == "") && candidate.name == pkg.name

-- tokenAllowsPackage
unfoldable pub token_allows_package : StoreToken → Package → Bool
token_allows_package token pkg = any (selects pkg) token.packages

-- charmDownloadURL
unfoldable pub charm_download_url : Config → String → ℤ → String
charm_download_url cfg package_id revision =
    cfg.public_api_url
    ++ "/api/v1/charms/download/"
    ++ package_id
    ++ "_"
    ++ itoa revision
    ++ ".charm"

-- resourceDownloadURL
unfoldable pub resource_download_url : Config → String → String → ℤ → String
resource_download_url cfg package_id resource_name revision =
    cfg.public_api_url
    ++ "/api/v1/resources/download/charm_"
    ++ package_id
    ++ "."
    ++ resource_name
    ++ "_"
    ++ itoa revision

-- registryImageName
unfoldable pub registry_image_name : Config → String → String → String
registry_image_name cfg charm_name resource_name =
    trim_prefix (trim_prefix cfg.public_registry_url "https://") "http://"
    ++ "/"
    ++ join (cfg.registry_repository_root ∷ charm_name ∷ resource_name ∷ [])

abbrev base_of : CharmBase → String → Base
base_of base arch = record {
  architecture = arch;
  architectures = [];
  channel = base.channel;
  name = base.name;
}

-- The bases of one declared base in extractBases.
unfoldable pub bases_of : CharmBase → List Base
bases_of base =
    if not (is_empty base.architectures)
    then map (base_of base) base.architectures
    else if base.architecture == ""
    then []
    else base_of base base.architecture ∷ []

unfoldable pub all_bases : List CharmBase → List Base
unfolding bases_of
all_bases [] = []
all_bases (base ∷ bases) = List.◌++◌ (bases_of base) (all_bases bases)

abbrev pub default_base : Base
default_base = record {
  architecture = "amd64";
  architectures = [];
  channel = "22.04";
  name = "ubuntu";
}

-- extractBases
unfoldable pub extract_bases : CharmManifest → List Base
unfolding all_bases
extract_bases manifest =
    let bases = all_bases manifest.bases in if is_empty bases then default_base ∷ [] else bases

-- compactID, of a new UUID
unfoldable pub compact_id : String → String
compact_id uuid = remove_char b'-' uuid

-- sanitizeSubject
unfoldable pub sanitize_subject : String → String
sanitize_subject subject =
    replace_char b'/' "-" (replace_char b'|' "-" (replace_char b':' "-" subject))

-- translateRepoError
unfoldable pub translate_repo_error : String → Error → Error
translate_repo_error message not_found = new_error 404 "not-found" message
translate_repo_error message conflict = new_error 409 "already-registered" message
translate_repo_error message (service e) = service e
translate_repo_error message (failure text) = failure text

-- detectUploadKind
unfoldable pub detect_upload_kind : String → String
unfolding ext
detect_upload_kind filename = if ext filename == ".charm" then "revision" else "resource"
