-- ===== src/Service/Revisions/Publication.antt =====
-- What PushRevision leaves behind once the archive is parsed, on the repository in memory.
use mathlib.Core.Path.{subst}
use charm_registry.Prelude.{String, ◌≡◌, refl, Option, some, List, [], ◌∷◌, ℤ, ap, ◌∙◌, arith}
use charm_registry.Prelude.Maps.{Map}
use charm_registry.Core.{
  Time, Identity, Package, Upload, ApiError, Revision, ResourceDefinition, CharmArchive,
  CharmResourceDeclaration,
}
use charm_registry.Config.{Config}
use charm_registry.Errors.{ok, ok_injective}
use charm_registry.Repo.Memory.State.{Memory, Platform, new_memory}
use charm_registry.Repo.Memory.Packages.{update_package}
use charm_registry.Repo.Memory.Resources.{upsert_resource_definition}
use charm_registry.Repo.Memory.Revisions.{
  revisions_of, create_revision, approve_upload, get_latest_revision, get_revision_by_number,
}
use charm_registry.Service.Context.{Service, Runtime, World, read, write, now, new_uuid, pure}
use charm_registry.Service.Context.Runs.{>>=_ok, read_ok, write_ok}
use charm_registry.Service.Revisions.{
  next_number, new_revision, described, declared, declare_resources, publish_revision,
}
use charm_registry.Service.Revisions.Numbering.{IsNumbered, create_revision-IsNumbered}
use charm_registry.Service.Revisions.Uploads.{in_memory}

-- The revisions are numbered from 1 on, and the number finds the revision.
abbrev pub HasPublished : String → Revision → Memory → Type 0
HasPublished package_id r m = IsNumbered m × (get_revision_by_number package_id r.revision m ≡ ok r)

HasPublished-same :
    (package_id : String) (r : Revision) (m m' : Memory)
    → m.revisions ≡ m'.revisions
    → HasPublished package_id r m
    → HasPublished package_id r m'
unfolding revisions_of get_revision_by_number
HasPublished-same package_id r m m' same h =
    subst (λ rs. HasPublished package_id r (record new_memory { revisions = rs })) same h

approve_upload-revisions :
    (now : Time) (id : String) (number : Option ℤ) (errors : List ApiError) (m m' : Memory)
    → approve_upload now id number errors m ≡ ok (tt, m')
    → m.revisions ≡ m'.revisions
unfolding approve_upload
approve_upload-revisions now id number errors m m' h = ground arith

update_package-revisions :
    (pkg : Package) (m m' : Memory)
    → update_package pkg m ≡ ok (tt, m')
    → m.revisions ≡ m'.revisions
unfolding update_package
update_package-revisions pkg m m' h = ground arith

upsert-revisions :
    (def stored : ResourceDefinition) (m m' : Memory)
    → upsert_resource_definition def m ≡ ok (stored, m')
    → m.revisions ≡ m'.revisions
unfolding upsert_resource_definition
upsert-revisions def stored m m' h = ap (λ p. p.1.revisions) (ok_injective h)

module _ (cfg : Config) (runtime : Runtime) (order : Platform) where
  abbrev s : Service
  s = in_memory cfg runtime order

  declare_resources-revisions :
      (package_id : String) (t : Time) (resources : Map CharmResourceDeclaration) (w v : World s)
      → declare_resources s package_id t resources w ≡ (ok tt, v)
      → w.db.revisions ≡ v.db.revisions
  unfolding declare_resources new_uuid pure
  declare_resources-revisions package_id t [] w v h = ap (λ p. p.1.db.revisions) h
  declare_resources-revisions package_id t ((name, resource) ∷ rest) w v h =
      let (id, w1, named, h1) = >>=_ok {s = s} new_uuid _ w v tt h in
      let def = declared id package_id name resource t in
      let (stored, w2, upserted, h2) =
        >>=_ok {s = s} (write (upsert_resource_definition def)) _ w1 v tt h1 in
      ap (λ p. p.1.db.revisions) named
      ∙ upsert-revisions def stored w1.db w2.db
          (write_ok {s = s} (upsert_resource_definition def) w1 w2 stored upserted)
      ∙ declare_resources-revisions package_id t rest w2 v h2

  -- PushRevision from the parsed archive on, with the repository in memory, when it succeeds on a
  -- state where the revisions of every package are numbered from 1 on: they still are, and the number
  -- after the latest one finds a revision of the package with the content of the upload.
  pub publish_revision-HasPublished :
      (identity : Identity) (charm_name url : String) (pkg : Package) (upload : Upload)
      (archive : CharmArchive) (w v : World s)
      → IsNumbered w.db
      → publish_revision s identity charm_name pkg upload archive w ≡ (ok url, v)
      → (r : Revision) × (next_number (get_latest_revision pkg.id w.db) ≡ ok r.revision)
        × HasPublished pkg.id r v.db
        × (r.package_id ≡ pkg.id)
        × (r.object_key ≡ upload.object_key)
  unfolding publish_revision now new_uuid pure new_revision
  publish_revision-HasPublished identity charm_name url pkg upload archive w v numbered h =
      let (number, w1, chosen, h1) =
        >>=_ok {s = s} (read (λ db. next_number (get_latest_revision pkg.id db))) _ w v url h in
      let (t, w2, clock, h2) = >>=_ok {s = s} now _ w1 v url h1 in
      let (id, w3, named, h3) = >>=_ok {s = s} new_uuid _ w2 v url h2 in
      let r = new_revision id pkg identity number upload archive t in
      let (u, w4, created, h4) = >>=_ok {s = s} (write (create_revision r)) _ w3 v url h3 in
      let (t', w5, clock', h5) = >>=_ok {s = s} now _ w4 v url h4 in
      let (u', w6, approved, h6) =
        >>=_ok {s = s} (write (approve_upload t' upload.id (some number) [])) _ w5 v url h5 in
      let (u'', w7, stored, h7) =
        >>=_ok {s = s} (write (update_package (described archive t pkg))) _ w6 v url h6 in
      let resources = runtime.visit_resources archive.manifest.resources in
      let (u3, w8, defined, h8) =
        >>=_ok {s = s} (declare_resources s pkg.id t resources) _ w7 v url h7 in
      let (next, same) =
        read_ok {s = s} (λ db. next_number (get_latest_revision pkg.id db)) w w1 number chosen in
      let same_db = ap (λ x. x.db) same ∙ ap (λ p. p.1.db) clock ∙ ap (λ p. p.1.db) named in
      let published =
        create_revision-IsNumbered r w3.db w4.db (subst IsNumbered same_db numbered)
          (subst (λ m. next_number (get_latest_revision pkg.id m) ≡ ok number) same_db next)
          (write_ok {s = s} (create_revision r) w3 w4 u created) in
      let later =
        ap (λ p. p.1.db.revisions) clock'
        ∙ approve_upload-revisions t' upload.id (some number) [] w5.db w6.db
            (write_ok {s = s} (approve_upload t' upload.id (some number) []) w5 w6 u' approved)
        ∙ update_package-revisions (described archive t pkg) w6.db w7.db
            (write_ok {s = s} (update_package (described archive t pkg)) w6 w7 u'' stored)
        ∙ declare_resources-revisions pkg.id t resources w7 w8 defined
        ∙ ap (λ p. p.1.db.revisions) h8 in
      (r, next, HasPublished-same pkg.id r w4.db v.db later published, refl, refl)
