-- ===== src/Charm.antt =====
-- internal/charm/archive.go: what is read from a charm archive. archive/zip and the YAML package are
-- not code of the repository: the files of an archive and the decoded documents are arguments.
pub mod Containers
use charm_registry.Prelude.{String, Option, none, some, List, [], ◌∷◌, ◌==◌, if◌then◌else◌, is_set}
use charm_registry.Prelude.Maps.{Map, lookup, insert}
use charm_registry.Core.{
  Any, text, items, texts, other, CharmBase, CharmResourceDeclaration, CharmContainer,
  CharmManifest, CharmArchive,
}
use charm_registry.Errors.{Result, ok, err, failure, ◌>>=◌, ◌>>◌}
use charm_registry.Text.{equal_fold}

-- The decoders that ParseArchive calls, with the texts of its errors: the files of a zip archive
-- with the outcome of reading each, metadata.yaml as a manifest, and the bases of manifest.yaml.
-- `visit` is the order in which a loop ranges over the containers.
pub record Decoders : Type 0 where
  pub files : String → Result (List (String × Result String))
  pub manifest : String → Result CharmManifest
  pub manifest_bases : String → Result (List CharmBase)
  pub visit : Map CharmContainer → Map CharmContainer

-- The texts that are found in an archive.
pub record Files : Type 0 where
  pub metadata_yaml : String
  pub manifest_yaml : String
  pub config_yaml : String
  pub actions_yaml : String
  pub bundle_yaml : String
  pub readme_md : String

abbrev pub no_files : Files
no_files = record {
  metadata_yaml = "";
  manifest_yaml = "";
  config_yaml = "";
  actions_yaml = "";
  bundle_yaml = "";
  readme_md = "";
}

-- The switch on the name of a file.
unfoldable pub add_file : String → String → Files → Files
add_file name content files =
    if equal_fold name "metadata.yaml"
    then record files { metadata_yaml = content }
    else if equal_fold name "manifest.yaml"
    then record files { manifest_yaml = content }
    else if equal_fold name "config.yaml"
    then record files { config_yaml = content }
    else if equal_fold name "actions.yaml"
    then record files { actions_yaml = content }
    else if equal_fold name "bundle.yaml"
    then record files { bundle_yaml = content }
    else if equal_fold name "README.md"
    then record files { readme_md = content }
    else files

-- The loop over the files; every file is read, and an error in reading one ends it.
unfoldable pub add_files : List (String × Result String) → Files → Result Files
unfolding add_file
add_files [] files = ok files
add_files ((name, outcome) ∷ rest) files = do
  content ← outcome
  add_files rest (add_file name content files)

-- One container of populateContainerResources.
unfoldable pub add_container :
    CharmContainer → Map CharmResourceDeclaration → Map CharmResourceDeclaration
add_container container resources =
    if container.resource == ""
    then resources
    else if is_set (lookup container.resource resources)
    then resources
    else insert container.resource
        (record { type = "oci-image"; description = ""; filename = ""; upstream_source = "" })
        resources

unfoldable pub add_containers :
    Map CharmContainer → Map CharmResourceDeclaration → Map CharmResourceDeclaration
unfolding add_container
add_containers [] resources = resources
add_containers ((name, container) ∷ rest) resources =
    add_containers rest (add_container container resources)

-- populateContainerResources
unfoldable pub populate_container_resources :
    (Map CharmContainer → Map CharmContainer) → CharmManifest → CharmManifest
unfolding add_containers
populate_container_resources visit manifest = record manifest {
  resources = add_containers (visit manifest.containers) manifest.resources;
}

-- `manifest.yaml` replaces the bases if there is one that is decoded.
unfoldable pub with_bases : Decoders → String → CharmManifest → CharmManifest
with_bases decode manifest_yaml manifest =
    if manifest_yaml == "" then manifest else elim (decode.manifest_bases manifest_yaml) [
      | ok bases ↦ record manifest { bases = bases }
      | err e ↦ manifest
    ]

unfoldable pub require_metadata : Files → Result (Unit {0})
require_metadata files =
    if files.metadata_yaml == ""
    then err (failure "metadata.yaml not found in charm archive")
    else ok tt

-- ParseArchive
unfoldable pub parse_archive : Decoders → String → Result CharmArchive
unfolding add_files require_metadata with_bases populate_container_resources
parse_archive decode payload = do
  entries ← decode.files payload
  files ← add_files entries no_files
  require_metadata files
  manifest ← decode.manifest files.metadata_yaml
  ok (record {
    metadata_yaml = files.metadata_yaml;
    manifest_yaml = files.manifest_yaml;
    config_yaml = files.config_yaml;
    actions_yaml = files.actions_yaml;
    bundle_yaml = files.bundle_yaml;
    readme_md = files.readme_md;
    manifest =
        populate_container_resources decode.visit (with_bases decode files.manifest_yaml manifest);
  })

-- The strings of a list of values that are not empty.
unfoldable pub non_empty_texts : List (Option String) → List String
non_empty_texts [] = []
non_empty_texts (none ∷ rest) = non_empty_texts rest
non_empty_texts (some website ∷ rest) =
    let others = non_empty_texts rest in if website == "" then others else website ∷ others

-- ExtractWebsites
unfoldable pub extract_websites : Any → List String
unfolding non_empty_texts
extract_websites (text website) = if website == "" then [] else website ∷ []
extract_websites (items values) = non_empty_texts values
extract_websites (texts values) = values
extract_websites other = []
