-- ===== src/Service/Packages.antt =====
-- internal/service/packages.go: registration, metadata and lookup of packages. A method that
-- changes nothing is a function of the repository's state.
pub mod Registration
use Prim.Native.String.{◌++◌}
use charm_registry.Prelude.{String, Bool, Option, none, some, List, [], ◌∷◌}
use charm_registry.Prelude.Maps.{Map}
use charm_registry.Core.{Time, Identity, Package, Revision}
use charm_registry.Config.{Config}
use charm_registry.Errors.{Result, ok, err, new_error, map_error, each, ◌>>=◌ as ◌and_then◌}
use charm_registry.Service.Context.{
  Service, Action, ◌>>=◌, ◌>>◌, pure, read, write, lift, now, new_uuid, catch_as,
}
use charm_registry.Service.Helpers.{first_non_empty, string_ptr, compact_id, translate_repo_error}
use charm_registry.Service.Guards.{
  perm_account_register_package, perm_account_view_packages, perm_package_manage,
  perm_package_manage_metadata, require_permission, require_package_view, require_package_manage,
}

-- MetadataPatch
pub record MetadataPatch : Type 0 where
  pub contact : Option String
  pub default_track : Option String
  pub description : Option String
  pub links : Option (Map (List String))
  pub private : Option Bool
  pub summary : Option String
  pub title : Option String
  pub website : Option String

-- The package of RegisterPackage.
unfoldable pub registered : Config → Identity → String → String → String → Bool → Time → Package
registered cfg identity id name package_type private t = record {
  id = id;
  name = name;
  type = first_non_empty (package_type ∷ "charm" ∷ []);
  private = private;
  status = "registered";
  owner_account_id = identity.account.id;
  authority = none;
  contact = none;
  default_track = string_ptr "latest";
  description = none;
  summary = none;
  title = none;
  website = none;
  links = [];
  media = [];
  track_guardrails = [];
  tracks =
      record {
        name = "latest";
        version_pattern = none;
        automatic_phasing_percentage = none;
        created_at = t;
      }
      ∷ [];
  publisher = record {
    id = identity.account.id;
    username = identity.account.username;
    display_name = identity.account.display_name;
    email = identity.account.email;
    validation = identity.account.validation;
  };
  store = cfg.public_api_url;
  created_at = t;
  updated_at = t;
}

-- `if patch.F != nil { pkg.F = patch.F }`, for an optional field and for a plain one
abbrev pub patched_option {ℓ} : {A : Type ℓ} → Option A → Option A → Option A
patched_option none old = old
patched_option (some new) old = some new

abbrev pub patched {ℓ} : {A : Type ℓ} → Option A → A → A
patched none old = old
patched (some new) old = new

-- The assignments of UpdatePackage.
unfoldable pub apply_patch : MetadataPatch → Time → Package → Package
apply_patch patch t pkg = record pkg {
  contact = patched_option patch.contact pkg.contact;
  default_track = patched_option patch.default_track pkg.default_track;
  description = patched_option patch.description pkg.description;
  summary = patched_option patch.summary pkg.summary;
  title = patched_option patch.title pkg.title;
  website = patched_option patch.website pkg.website;
  private = patched patch.private pkg.private;
  links = patched patch.links pkg.links;
  updated_at = t;
}

module _ (s : Service) where
  -- `s.repo.GetPackageByName` with the error that the methods of the service make of its error.
  unfoldable pub package_named : String → s.repo.State → Result Package
  package_named name db =
      map_error (translate_repo_error "package not found") (s.repo.get_package_by_name name db)

  -- enrichPackage
  unfoldable pub enrich_package : Package → s.repo.State → Result Package
  enrich_package pkg db = s.repo.list_tracks pkg.id db and_then λ tracks.
      ok (record pkg { tracks = tracks; store = s.cfg.public_api_url ++ "/charms/" ++ pkg.name })

  -- enrichPackages
  unfoldable pub enrich_packages : List Package → s.repo.State → Result (List Package)
  unfolding each enrich_package
  enrich_packages packages db = each (λ pkg. enrich_package pkg db) packages

  -- RegisterPackage
  unfoldable pub register_package : Identity → String → String → Bool → Action s Package
  unfolding lift now new_uuid write pure catch_as registered
  register_package identity name package_type private = do
    lift (require_permission identity perm_account_register_package)
    t ← now
    id ← new_uuid
    let pkg = registered s.cfg identity (compact_id id) name package_type private t
    catch_as (translate_repo_error "package already exists") (write (s.repo.create_package pkg))
    created ← write (s.repo.create_tracks pkg.id pkg.tracks)
    pure pkg

  -- ListRegisteredPackages
  unfoldable pub list_registered_packages : Identity → Bool → s.repo.State → Result (List Package)
  unfolding enrich_packages
  list_registered_packages identity include_collaborations db =
      require_permission identity perm_account_view_packages and_then λ _.
      s.repo.list_packages_for_account identity.account.id include_collaborations db
      and_then λ packages. enrich_packages packages db

  -- GetPackage
  unfoldable pub get_package : Identity → String → Bool → s.repo.State → Result Package
  unfolding package_named
  get_package identity name require_view_permission db = package_named name db and_then λ pkg.
      require_package_view s.repo identity pkg require_view_permission db and_then λ _.
      enrich_package pkg db

  -- UpdatePackage
  unfoldable pub update_package : Identity → String → MetadataPatch → Action s Package
  unfolding read lift now write apply_patch package_named
  update_package identity name patch = do
    pkg ← read (package_named name)
    read (require_package_manage s.repo identity pkg perm_package_manage_metadata)
    t ← now
    let updated = apply_patch patch t pkg
    write (s.repo.update_package updated)
    read (enrich_package updated)

  -- The refusal of UnregisterPackage.
  unfoldable pub require_no_revisions : List Revision → Result (Unit {0})
  require_no_revisions [] = ok tt
  require_no_revisions (r ∷ rs) =
      err (new_error 400 "invalid-request" "cannot unregister a package with existing revisions")

  -- UnregisterPackage
  unfoldable pub unregister_package : Identity → String → Action s String
  unfolding read lift write pure package_named require_no_revisions
  unregister_package identity name = do
    pkg ← read (package_named name)
    read (require_package_manage s.repo identity pkg perm_package_manage)
    revisions ← read (s.repo.list_revisions pkg.id none)
    lift (require_no_revisions revisions)
    write (s.repo.delete_package pkg.id)
    pure pkg.id
