-- ===== src/Api/Authorization.antt =====
-- The routes that write to a package: what they ask of the caller.
use charm_registry.Prelude.{String, ◌≡◌, ap, ◌⊎◌, inl, inr, Option, none, some, map}
use charm_registry.Errors.{Error}
use charm_registry.Service.Context.{World}
use charm_registry.Service.Context.Keeping.{SameStores}
use charm_registry.Service.Guards.{
  perm_package_manage, perm_package_manage_metadata, perm_package_manage_releases,
  perm_package_manage_revisions,
}
use charm_registry.Service.Authorization.Writes.{writes_are_authorized}
use charm_registry.Service.Packages.{update_package, unregister_package}
use charm_registry.Service.Releases.{release, create_tracks}
use charm_registry.Service.Revisions.{push_revision}
use charm_registry.Service.Resources.{push_resource, update_resource_revisions}
use charm_registry.Api.Responses.{secured, write_error}
use charm_registry.Api.Requests.{Request, body_of}
use charm_registry.Api.Identities.{Api, identity_of}
use charm_registry.Api.Handlers.Packages.{handle_patch_package, handle_delete_package}
use charm_registry.Api.Handlers.Releases.{handle_release, handle_create_tracks, requested_release}
use charm_registry.Api.Handlers.Revisions.{handle_push_revision}
use charm_registry.Api.Handlers.Resources.{handle_push_resource, handle_update_resource_revisions}
use charm_registry.Api.Routes.{
  Endpoint, handler_of, serve, to_root, to_openapi, to_docs, to_get_tokens, to_issue_token,
  to_exchange_token, to_offline_exchange, to_revoke_token, to_token_who_am_i, to_dashboard_exchange,
  to_who_am_i, to_libraries_bulk, to_list_packages, to_register_package, to_get_package,
  to_patch_package, to_delete_package, to_list_revisions, to_push_revision, to_review_upload,
  to_list_resources, to_list_resource_revisions, to_push_resource, to_update_resource_revisions,
  to_oci_upload_credentials, to_oci_image_blob, to_list_releases, to_release, to_create_tracks,
  to_unscanned_upload, to_find, to_info, to_refresh, to_charm_download, to_resource_download,
}
use charm_registry.Api.Writers.{ByManager, GuardedBy, guarded, decoded_write, Refuses-then}

-- The permission that a route asks for on the package that its path names.
unfoldable pub managed_permission : Endpoint → Option String
managed_permission to_root = none
managed_permission to_openapi = none
managed_permission to_docs = none
managed_permission to_get_tokens = none
managed_permission to_issue_token = none
managed_permission to_exchange_token = none
managed_permission to_offline_exchange = none
managed_permission to_revoke_token = none
managed_permission to_token_who_am_i = none
managed_permission to_dashboard_exchange = none
managed_permission to_who_am_i = none
managed_permission to_libraries_bulk = none
managed_permission to_list_packages = none
managed_permission to_register_package = none
managed_permission to_get_package = none
managed_permission to_patch_package = some perm_package_manage_metadata
managed_permission to_delete_package = some perm_package_manage
managed_permission to_list_revisions = none
managed_permission to_push_revision = some perm_package_manage_revisions
managed_permission to_review_upload = none
managed_permission to_list_resources = none
managed_permission to_list_resource_revisions = none
managed_permission to_push_resource = some perm_package_manage_revisions
managed_permission to_update_resource_revisions = some perm_package_manage_revisions
managed_permission to_oci_upload_credentials = none
managed_permission to_oci_image_blob = none
managed_permission to_list_releases = none
managed_permission to_release = some perm_package_manage_releases
managed_permission to_create_tracks = some perm_package_manage_metadata
managed_permission to_unscanned_upload = none
managed_permission to_find = none
managed_permission to_info = none
managed_permission to_refresh = none
managed_permission to_charm_download = none
managed_permission to_resource_download = none

module _ (api : Api) where
  -- An error is answered, and nothing is written beyond what identifies the caller.
  abbrev pub Declines : Endpoint → Request → World api.svc → Type 0
  Declines endpoint req w =
      (e : Error) × ((serve api endpoint req w).0 ≡ secured (write_error e))
      × SameStores (identity_of api req w).1 (serve api endpoint req w).1

  some_injective : {a b : String} → some a ≡ some b → a ≡ b
  some_injective h = cc

  permitted :
      (endpoint : Endpoint) (req : Request) (permission : String)
      → managed_permission endpoint ≡ some permission
      → GuardedBy api req permission (handler_of api endpoint req)
  unfolding managed_permission handler_of handle_patch_package handle_delete_package handle_release
      handle_create_tracks handle_push_revision handle_push_resource
      handle_update_resource_revisions
  permitted to_root req permission h = cc
  permitted to_openapi req permission h = cc
  permitted to_docs req permission h = cc
  permitted to_get_tokens req permission h = cc
  permitted to_issue_token req permission h = cc
  permitted to_exchange_token req permission h = cc
  permitted to_offline_exchange req permission h = cc
  permitted to_revoke_token req permission h = cc
  permitted to_token_who_am_i req permission h = cc
  permitted to_dashboard_exchange req permission h = cc
  permitted to_who_am_i req permission h = cc
  permitted to_libraries_bulk req permission h = cc
  permitted to_list_packages req permission h = cc
  permitted to_register_package req permission h = cc
  permitted to_get_package req permission h = cc
  permitted to_patch_package req permission h = rw (← some_injective h) (
      decoded_write api req _ (body_of api.svc.cfg api.json.patch req)
        (λ identity patch. update_package api.svc identity (req.url_param "name") patch) _
        (λ identity v patch.
          (writes_are_authorized api.svc identity (req.url_param "name") v).0 patch))
  permitted to_delete_package req permission h = rw (← some_injective h) (
      guarded api (record {
        lets_in = λ identity v.
            Refuses-then api (unregister_package api.svc identity (req.url_param "name")) _ v
              (writes_are_authorized api.svc identity (req.url_param "name") v).1;
      }))
  permitted to_list_revisions req permission h = cc
  permitted to_push_revision req permission h = rw (← some_injective h) (
      decoded_write api req _ (body_of api.svc.cfg api.json.upload_id req)
        (λ identity body. push_revision api.svc identity (req.url_param "name") body) _
        (λ identity v body.
          (writes_are_authorized api.svc identity (req.url_param "name") v).4 body))
  permitted to_review_upload req permission h = cc
  permitted to_list_resources req permission h = cc
  permitted to_list_resource_revisions req permission h = cc
  permitted to_push_resource req permission h = rw (← some_injective h) (
      decoded_write api req _ (body_of api.svc.cfg api.json.resource req)
        (λ identity body.
          push_resource api.svc identity (req.url_param "name") (req.url_param "resource") body)
        _
        (λ identity v body.
          (writes_are_authorized api.svc identity (req.url_param "name") v).5
            (req.url_param "resource") body))
  permitted to_update_resource_revisions req permission h = rw (← some_injective h) (
      decoded_write api req _ (body_of api.svc.cfg api.json.resource_updates req)
        (λ identity body.
          update_resource_revisions api.svc identity (req.url_param "name")
            (req.url_param "resource") body)
        _
        (λ identity v body.
          (writes_are_authorized api.svc identity (req.url_param "name") v).6
            (req.url_param "resource") body))
  permitted to_oci_upload_credentials req permission h = cc
  permitted to_oci_image_blob req permission h = cc
  permitted to_list_releases req permission h = cc
  permitted to_release req permission h = rw (← some_injective h) (
      decoded_write api req _ (body_of api.svc.cfg api.json.releases req)
        (λ identity body.
          release api.svc identity (req.url_param "name") (map requested_release body))
        _
        (λ identity v body.
          (writes_are_authorized api.svc identity (req.url_param "name") v).2
            (map requested_release body)))
  permitted to_create_tracks req permission h = rw (← some_injective h) (
      decoded_write api req _ (body_of api.svc.cfg api.json.tracks req)
        (λ identity body. create_tracks api.svc identity (req.url_param "name") body) _
        (λ identity v body.
          (writes_are_authorized api.svc identity (req.url_param "name") v).3 body))
  permitted to_unscanned_upload req permission h = cc
  permitted to_find req permission h = cc
  permitted to_info req permission h = cc
  permitted to_refresh req permission h = cc
  permitted to_charm_download req permission h = cc
  permitted to_resource_download req permission h = cc

  -- PATCH and DELETE of a package, and POST of its releases, tracks, revisions and resource
  -- revisions: the caller is identified and may manage the package that the path names, with the
  -- permission that the route asks for, or an error is answered and nothing is written beyond what
  -- identifies the caller.
  pub serve_is_authorized :
      (endpoint : Endpoint) (req : Request) (permission : String) (w : World api.svc)
      → managed_permission endpoint ≡ some permission
      → ByManager api req permission w ⊎ Declines endpoint req w
  unfolding serve
  serve_is_authorized endpoint req permission w asks =
      elim ((permitted endpoint req permission asks).at w) [
        | inl managed ↦ inl managed
        | inr (e, answer, same) ↦ inr (e, ap secured answer, same)
      ]
