-- ===== src/Service/Authorization/Writes.antt =====
-- The methods that write to a package ask first whether the caller may manage it.
use charm_registry.Prelude.{String, ◌≡◌, ◌⊎◌, inl, inr, List, arith}
use charm_registry.Core.{Identity, Package, Release, Track}
use charm_registry.Errors.{ok, err, Error, map_error-eq-ok, Result-cases}
use charm_registry.Service.Context.{Service, World, Action, ◌>>=◌, read}
use charm_registry.Service.Guards.{
  perm_package_manage, perm_package_manage_metadata, perm_package_manage_releases,
  perm_package_manage_revisions, require_package_manage,
}
use charm_registry.Service.Guards.Access.{MayManage, require_package_manage_iff}
use charm_registry.Service.Packages.{
  package_named, MetadataPatch, update_package, unregister_package,
}
use charm_registry.Service.Releases.{release, create_tracks}
use charm_registry.Service.Revisions.{push_revision}
use charm_registry.Service.Resources.{
  PushResourceRequest, ResourceRevisionUpdate, push_resource, update_resource_revisions,
}

module _ (s : Service) where
  -- The beginning of each of these methods.
  abbrev managed : {A : Type 0} → Identity → String → String → (Package → Action s A) → Action s A
  managed identity name permission rest = read (package_named s name) >>= λ pkg.
      read (require_package_manage s.repo identity pkg permission) >>= λ _. rest pkg

  -- The package of the given name exists and the caller may manage it.
  pub record Managed (identity : Identity) (name permission : String) (w : World s) : Type 0 where
    pub pkg : Package
    pub named : s.repo.get_package_by_name name w.db ≡ ok pkg
    pub may_manage : MayManage s.repo identity pkg permission w.db

  -- An action that fails and leaves the world as it was.
  abbrev pub Refuses : {A : Type 0} → Action s A → World s → Type 0
  Refuses m w = (e : Error) × (m w ≡ (err e, w))

  named_of :
      (name : String) (pkg : Package) (db : s.repo.State)
      → package_named s name db ≡ ok pkg
      → s.repo.get_package_by_name name db ≡ ok pkg
  unfolding package_named
  named_of name pkg db found = map_error-eq-ok _ _ found

  refused_of :
      {A : Type 0} (identity : Identity) (name permission : String) (rest : Package → Action s A)
      (w : World s)
      → Managed identity name permission w ⊎ Refuses (managed identity name permission rest) w
  unfolding ◌>>=◌ read
  refused_of identity name permission rest w = elim (Result-cases (package_named s name w.db)) [
    | inr (e, missing) ↦ inr (e, ground arith)
    | inl (pkg, found) ↦
        elim (Result-cases (require_package_manage s.repo identity pkg permission w.db)) [
          | inr (e, refused) ↦ inr (e, ground arith)
          | inl (tt, let_in) ↦ inl (record {
            pkg = pkg;
            named = named_of name pkg w.db found;
            may_manage = (require_package_manage_iff s.repo identity pkg permission w.db).0 let_in;
          })
        ]
  ]

  -- UpdatePackage, UnregisterPackage, Release, CreateTracks, PushRevision, PushResource and
  -- UpdateResourceRevisions: the package of the given name exists and the caller may manage it with
  -- the permission that the method asks for, or the method fails and writes nothing.
  pub writes_are_authorized :
      (identity : Identity) (name : String) (w : World s)
      → ((patch : MetadataPatch)
          → Managed identity name perm_package_manage_metadata w
            ⊎ Refuses (update_package s identity name patch) w)
        × (Managed identity name perm_package_manage w
            ⊎ Refuses (unregister_package s identity name) w)
        × ((requests : List Release)
            → Managed identity name perm_package_manage_releases w
              ⊎ Refuses (release s identity name requests) w)
        × ((tracks : List Track)
            → Managed identity name perm_package_manage_metadata w
              ⊎ Refuses (create_tracks s identity name tracks) w)
        × ((upload_id : String)
            → Managed identity name perm_package_manage_revisions w
              ⊎ Refuses (push_revision s identity name upload_id) w)
        × ((resource_name : String) (request : PushResourceRequest)
            → Managed identity name perm_package_manage_revisions w
              ⊎ Refuses (push_resource s identity name resource_name request) w)
        × ((resource_name : String) (updates : List ResourceRevisionUpdate)
            → Managed identity name perm_package_manage_revisions w
              ⊎ Refuses (update_resource_revisions s identity name resource_name updates) w)
  unfolding update_package unregister_package release create_tracks push_revision push_resource
      update_resource_revisions
  writes_are_authorized identity name w = (
    λ patch. refused_of identity name _ _ w,
    refused_of identity name _ _ w,
    λ requests. refused_of identity name _ _ w,
    λ tracks. refused_of identity name _ _ w,
    λ upload_id. refused_of identity name _ _ w,
    λ resource_name request. refused_of identity name _ _ w,
    λ resource_name updates. refused_of identity name _ _ w,
  )
