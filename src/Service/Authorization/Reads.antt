-- ===== src/Service/Authorization/Reads.antt =====
-- The methods that read a package ask first whether the caller may view it, and Find leaves out the
-- packages that the caller may not view.
use mathlib.Core.Path.{subst}
use charm_registry.Prelude.{
  String, ◌≡◌, refl, ◌⊎◌, inl, inr, Bool, true, false, Option, List, [], ◌∷◌, arith, ℤ, sym, All,
  Any, Bool-cases,
}
use charm_registry.Core.{Identity, Package}
use charm_registry.Errors.{
  Result, ok, err, Error, not_found, conflict, service, failure, >>=-eq-ok, map_error, Result-cases,
  ◌>>=◌,
}
use charm_registry.Service.Context.{Service, World}
use charm_registry.Service.Guards.{require_package_view, can_see_package}
use charm_registry.Service.Guards.Access.{MayView, require_package_view_iff}
use charm_registry.Service.Packages.{package_named, get_package, enrich_packages}
use charm_registry.Service.Revisions.{review_upload, list_revisions, download_charm}
use charm_registry.Service.Resources.{list_resources, list_resource_revisions, download_resource}
use charm_registry.Service.ReleaseMap.{list_releases}
use charm_registry.Service.Search.{
  info, find_each, find, keep_found, package_find_result, FindResult,
}

module _ (s : Service) where
  -- A package that a lookup finds and that the caller may view.
  pub record Viewed (identity : Identity) (looked_up : Result Package) (checked : Bool)
      (db : s.repo.State) : Type 0 where
    pub pkg : Package
    pub found : looked_up ≡ ok pkg
    pub may_view : MayView s.repo identity pkg checked db

  abbrev pub Fails {ℓ} : {A : Type ℓ} → Result A → Type ℓ
  Fails r = (e : Error) × (r ≡ err e)

  refused_or_allowed :
      {A : Type 0} (identity : Identity) (r : Result Package) (f : Error → Error) (checked : Bool)
      (db : s.repo.State) (rest : Package → Result A)
      → Viewed identity r checked db
        ⊎ Fails (
            map_error f r >>= λ pkg.
            require_package_view s.repo identity pkg checked db >>= λ _. rest pkg)
  refused_or_allowed identity (err e) f checked db rest = inr (f e, refl)
  refused_or_allowed identity (ok pkg) f checked db rest =
      elim (Result-cases (require_package_view s.repo identity pkg checked db)) [
        | inr (e, refused) ↦ inr (e, ground arith)
        | inl (tt, let_in) ↦ inl (record {
          pkg = pkg;
          found = refl;
          may_view = (require_package_view_iff s.repo identity pkg checked db).0 let_in;
        })
      ]

  get_package_allowed :
      (identity : Identity) (name : String) (checked : Bool) (db : s.repo.State)
      → Viewed identity (s.repo.get_package_by_name name db) checked db
        ⊎ Fails (get_package s identity name checked db)
  unfolding get_package package_named
  get_package_allowed identity name checked db =
      refused_or_allowed identity (s.repo.get_package_by_name name db) _ checked db _

  info_allowed :
      (identity : Identity) (name : String) (db : s.repo.State)
      → Viewed identity (s.repo.get_package_by_name name db) false db
        ⊎ Fails (info s identity name db)
  unfolding info
  info_allowed identity name db = elim (get_package_allowed identity name false db) [
    | inl viewed ↦ inl viewed
    | inr (e, failed) ↦ inr (e, ground arith)
  ]

  -- GetPackage, Info, ReviewUpload, ListReleases, ListRevisions, ListResources, ListResourceRevisions, DownloadCharm
  -- and DownloadResource: the package of the given name or ID is found and the caller may view it, with
  -- the token permission where the method asks for it, or the method fails.
  pub reads_are_authorized :
      (identity : Identity) (name : String) (w : World s)
      → let by_name = s.repo.get_package_by_name name w.db in
        let by_id = s.repo.get_package_by_id name w.db in
        ((checked : Bool)
          → Viewed identity by_name checked w.db ⊎ Fails (get_package s identity name checked w.db))
        × (Viewed identity by_name false w.db ⊎ Fails (info s identity name w.db))
        × ((upload_id : String)
            → Viewed identity by_name true w.db
              ⊎ Fails (review_upload s identity name upload_id w.db))
        × (Viewed identity by_name true w.db ⊎ Fails (list_releases s identity name w.db))
        × ((number : Option ℤ)
            → Viewed identity by_name true w.db
              ⊎ Fails (list_revisions s identity name number w.db))
        × (Viewed identity by_name true w.db ⊎ Fails (list_resources s identity name w.db))
        × ((resource_name : String)
            → Viewed identity by_name true w.db
              ⊎ Fails (list_resource_revisions s identity name resource_name w.db))
        × ((number : ℤ)
            → Viewed identity by_id false w.db ⊎ Fails (download_charm s identity name number w))
        × ((resource_name : String) (number : ℤ)
            → Viewed identity by_id false w.db
              ⊎ Fails (download_resource s identity name resource_name number w))
  unfolding package_named review_upload list_releases list_revisions list_resources
      list_resource_revisions download_charm download_resource
  reads_are_authorized identity name w =
      let by_name = s.repo.get_package_by_name name w.db in
      let by_id = s.repo.get_package_by_id name w.db in
      (
        λ checked. get_package_allowed identity name checked w.db,
        info_allowed identity name w.db,
        λ upload_id. refused_or_allowed identity by_name _ true w.db _,
        refused_or_allowed identity by_name _ true w.db _,
        λ number. refused_or_allowed identity by_name _ true w.db _,
        refused_or_allowed identity by_name _ true w.db _,
        λ resource_name. refused_or_allowed identity by_name _ true w.db _,
        λ number. refused_or_allowed identity by_id _ false w.db _,
        λ resource_name number. refused_or_allowed identity by_id _ false w.db _,
      )

  -- A result of Find comes from a package that the caller may view.
  abbrev pub Shown : Identity → List Package → s.repo.State → FindResult → Type 0
  Shown identity packages db result =
      Any (λ pkg. (package_find_result s pkg db ≡ ok result) × MayView s.repo identity pkg false db)
        packages

  can_see_package-MayView :
      (identity : Identity) (pkg : Package) (db : s.repo.State)
      → can_see_package s.repo identity pkg db ≡ true
      → MayView s.repo identity pkg false db
  unfolding can_see_package
  can_see_package-MayView identity pkg db seen =
      elim (Result-cases (require_package_view s.repo identity pkg false db)) [
        | inl (tt, let_in) ↦ (require_package_view_iff s.repo identity pkg false db).0 let_in
        | inr (e, refused) ↦ ground arith
      ]

  Shown-later :
      (identity : Identity) (pkg : Package) (packages : List Package) (db : s.repo.State)
      (results : List FindResult)
      → All (Shown identity packages db) results
      → All (Shown identity (pkg ∷ packages) db) results
  Shown-later identity pkg packages db [] h = tt
  Shown-later identity pkg packages db (result ∷ results) h =
      (inr h.0, Shown-later identity pkg packages db results h.1)

  keep_found_cases :
      {A : Type 0} (r : Result A) (rest : Result (List A)) (items : List A)
      → keep_found r rest ≡ ok items
      → ((x : A) × (xs : List A) × (r ≡ ok x) × (rest ≡ ok xs) × (items ≡ x ∷ xs))
        ⊎ (rest ≡ ok items)
  unfolding keep_found
  keep_found_cases (ok x) (ok xs) items h = inl (x, xs, refl, refl, ground arith)
  keep_found_cases (ok x) (err e) items h = cc
  keep_found_cases (err not_found) rest items h = inr h
  keep_found_cases (err conflict) rest items h = cc
  keep_found_cases (err (service e)) rest items h = cc
  keep_found_cases (err (failure t)) rest items h = cc

  -- Every result that the loop of Find gives is made of a package of its list that the caller may
  -- view.
  find_each-Shown :
      (identity : Identity) (packages : List Package) (db : s.repo.State)
      (results : List FindResult)
      → find_each s identity packages db ≡ ok results
      → All (Shown identity packages db) results
  unfolding find_each
  find_each-Shown identity [] db [] h = tt
  find_each-Shown identity [] db (result ∷ results) h = cc
  find_each-Shown identity (pkg ∷ packages) db results h =
      elim (Bool-cases (can_see_package s.repo identity pkg db)) [
        | inr hidden ↦
            Shown-later identity pkg packages db results
              (find_each-Shown identity packages db results (ground arith))
        | inl seen ↦
            elim (keep_found_cases (package_find_result s pkg db) (find_each s identity packages db)
              results (ground arith)) [
                | inr rest ↦
                    Shown-later identity pkg packages db results
                      (find_each-Shown identity packages db results rest)
                | inl (x, xs, made, rest, same) ↦
                    subst (All (Shown identity (pkg ∷ packages) db)) (sym same) (
                      inl (made, can_see_package-MayView identity pkg db seen),
                      Shown-later identity pkg packages db xs
                          (find_each-Shown identity packages db xs rest),
                    )
              ]
      ]

  -- Find, when it answers: the repository answered the search, and every result that is shown is made
  -- of a package that the search found, with its tracks, and that the caller may view.
  pub find-Shown :
      (identity : Identity) (query : String) (db : s.repo.State) (results : List FindResult)
      → find s identity query db ≡ ok results
      → (packages : List Package) × (enriched : List Package) × (s.repo.search_packages query db
          ≡ ok packages)
        × (enrich_packages s packages db ≡ ok enriched)
        × All (Shown identity enriched db) results
  unfolding find
  find-Shown identity query db results h =
      let (packages, found, h') = >>=-eq-ok (s.repo.search_packages query db) _ h in
      let (enriched, enriched_ok, h'') = >>=-eq-ok (enrich_packages s packages db) _ h' in
      (packages, enriched, found, enriched_ok, find_each-Shown identity enriched db results h'')
