-- ===== src/Api/Callers.antt =====
-- The callers of the handlers: who is turned away.
use charm_registry.Prelude.{Bool, true, false, ◌≡◌, refl, ap, ◌∙◌, ◌+◌}
use charm_registry.Core.{Identity}
use charm_registry.Errors.{err, Error}
use charm_registry.Auth.Authenticator.{authenticate}
use charm_registry.Service.Context.{World, Action, ◌>>=◌, read, now}
use charm_registry.Api.Documents.{error_list}
use charm_registry.Api.Responses.{Response, secured, write_json, write_error}
use charm_registry.Api.Requests.{Request}
use charm_registry.Api.Identities.{
  Api, answered, response_of, identity_of, caller_claims, unauthorized, authenticator,
}
use charm_registry.Api.Routes.{
  Endpoint, handler_of, serve, to_root, to_openapi, to_docs, to_get_tokens, to_issue_token,
  to_exchange_token, to_offline_exchange, to_revoke_token, to_token_who_am_i, to_dashboard_exchange,
  to_who_am_i, to_libraries_bulk, to_list_packages, to_register_package, to_get_package,
  to_patch_package, to_delete_package, to_list_revisions, to_push_revision, to_review_upload,
  to_list_resources, to_list_resource_revisions, to_push_resource, to_update_resource_revisions,
  to_oci_upload_credentials, to_oci_image_blob, to_list_releases, to_release, to_create_tracks,
  to_unscanned_upload, to_find, to_info, to_refresh, to_charm_download, to_resource_download,
}
use charm_registry.Api.Handlers.Tokens.{
  handle_root, handle_openapi, handle_docs, handle_get_tokens, handle_issue_token,
  handle_exchange_token, handle_dashboard_exchange, handle_revoke_token, handle_token_who_am_i,
  handle_who_am_i, handle_libraries_bulk,
}
use charm_registry.Api.Handlers.Packages.{
  handle_register_package, handle_list_packages, handle_get_package, handle_patch_package,
  handle_delete_package,
}
use charm_registry.Api.Handlers.Releases.{
  handle_list_releases, handle_release, handle_create_tracks, handle_find, handle_info,
  handle_refresh,
}
use charm_registry.Api.Handlers.Revisions.{
  handle_list_revisions, handle_push_revision, handle_review_upload, handle_unscanned_upload,
  handle_charm_download,
}
use charm_registry.Api.Handlers.Resources.{
  handle_list_resources, handle_list_resource_revisions, handle_push_resource,
  handle_update_resource_revisions, handle_oci_upload_credentials, handle_oci_image_blob,
  handle_resource_download,
}

-- The handlers that ask who the caller is: all but those of three documents, of the libraries and of
-- the uploads.
unfoldable pub identifies : Endpoint → Bool
identifies to_root = false
identifies to_openapi = false
identifies to_docs = false
identifies to_get_tokens = true
identifies to_issue_token = true
identifies to_exchange_token = true
identifies to_offline_exchange = true
identifies to_revoke_token = true
identifies to_token_who_am_i = true
identifies to_dashboard_exchange = true
identifies to_who_am_i = true
identifies to_libraries_bulk = false
identifies to_list_packages = true
identifies to_register_package = true
identifies to_get_package = true
identifies to_patch_package = true
identifies to_delete_package = true
identifies to_list_revisions = true
identifies to_push_revision = true
identifies to_review_upload = true
identifies to_list_resources = true
identifies to_list_resource_revisions = true
identifies to_push_resource = true
identifies to_update_resource_revisions = true
identifies to_oci_upload_credentials = true
identifies to_oci_image_blob = true
identifies to_list_releases = true
identifies to_release = true
identifies to_create_tracks = true
identifies to_unscanned_upload = false
identifies to_find = true
identifies to_info = true
identifies to_refresh = true
identifies to_charm_download = true
identifies to_resource_download = true

module _ (api : Api) where
  rejected :
      (req : Request) (k : Identity → Action api.svc Response) (w : World api.svc) (x : Error)
      → authenticate api.svc.runtime
          (authenticator api w.db)
          (api.svc.runtime.clock w.calls)
          (req.header "Authorization")
        ≡ err x
      → answered api (identity_of api req >>= k) w ≡ (
        write_json 401 (error_list "unauthorized" "authentication required"),
        record w { calls = w.calls + 1 },
      )
  unfolding answered response_of identity_of caller_claims ◌>>=◌ read now write_error write_json
      unauthorized
  rejected req k w x h = rw h refl

  -- The part of a handler after the caller is known.
  pub identified :
      (endpoint : Endpoint) (req : Request)
      → identifies endpoint ≡ true
      → (k : Identity → Action api.svc Response) × (handler_of api endpoint req
          ≡ answered api (identity_of api req >>= k))
  unfolding identifies handler_of handle_root handle_openapi handle_docs handle_get_tokens
      handle_issue_token handle_exchange_token handle_revoke_token handle_token_who_am_i
      handle_dashboard_exchange handle_who_am_i handle_libraries_bulk handle_list_packages
      handle_register_package handle_get_package handle_patch_package handle_delete_package
      handle_list_revisions handle_push_revision handle_review_upload handle_list_resources
      handle_list_resource_revisions handle_push_resource handle_update_resource_revisions
      handle_oci_upload_credentials handle_oci_image_blob handle_list_releases handle_release
      handle_create_tracks handle_unscanned_upload handle_find handle_info handle_refresh
      handle_charm_download handle_resource_download
  identified to_root req h = cc
  identified to_openapi req h = cc
  identified to_docs req h = cc
  identified to_get_tokens req h = (_, refl)
  identified to_issue_token req h = (_, refl)
  identified to_exchange_token req h = (_, refl)
  identified to_offline_exchange req h = (_, refl)
  identified to_revoke_token req h = (_, refl)
  identified to_token_who_am_i req h = (_, refl)
  identified to_dashboard_exchange req h = (_, refl)
  identified to_who_am_i req h = (_, refl)
  identified to_libraries_bulk req h = cc
  identified to_list_packages req h = (_, refl)
  identified to_register_package req h = (_, refl)
  identified to_get_package req h = (_, refl)
  identified to_patch_package req h = (_, refl)
  identified to_delete_package req h = (_, refl)
  identified to_list_revisions req h = (_, refl)
  identified to_push_revision req h = (_, refl)
  identified to_review_upload req h = (_, refl)
  identified to_list_resources req h = (_, refl)
  identified to_list_resource_revisions req h = (_, refl)
  identified to_push_resource req h = (_, refl)
  identified to_update_resource_revisions req h = (_, refl)
  identified to_oci_upload_credentials req h = (_, refl)
  identified to_oci_image_blob req h = (_, refl)
  identified to_list_releases req h = (_, refl)
  identified to_release req h = (_, refl)
  identified to_create_tracks req h = (_, refl)
  identified to_unscanned_upload req h = cc
  identified to_find req h = (_, refl)
  identified to_info req h = (_, refl)
  identified to_refresh req h = (_, refl)
  identified to_charm_download req h = (_, refl)
  identified to_resource_download req h = (_, refl)

  -- A request whose credentials are refused is answered with status 401 and a fixed text, by every
  -- route that identifies its caller, and nothing is written.
  pub serve_rejects :
      (endpoint : Endpoint) (req : Request) (w : World api.svc) (x : Error)
      → identifies endpoint ≡ true
      → authenticate api.svc.runtime
          (authenticator api w.db)
          (api.svc.runtime.clock w.calls)
          (req.header "Authorization")
        ≡ err x
      → serve api endpoint req w ≡ (
        secured (write_json 401 (error_list "unauthorized" "authentication required")),
        record w { calls = w.calls + 1 },
      )
  unfolding serve
  serve_rejects endpoint req w x asks refused =
      let (k, same) = identified endpoint req asks in
      ap (λ h. let (r, w') = h w in (secured r, w')) same
      ∙ ap (λ a. (secured a.0, a.1)) (rejected req k w x refused)
