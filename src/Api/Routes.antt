-- ===== src/Api/Routes.antt =====
-- internal/api/http.go: the routes. The router, of which only the table is the program's, finds the
-- route of a request and its parameters.
use charm_registry.Prelude.{String}
use charm_registry.Api.Texts.{open_api_spec, docs_page}
use charm_registry.Api.Responses.{secured}
use charm_registry.Api.Identities.{Api, Handler}
use charm_registry.Api.Handlers.Tokens.{
  handle_root, handle_openapi, handle_docs, handle_get_tokens, handle_issue_token,
  handle_exchange_token, handle_revoke_token, handle_token_who_am_i, handle_dashboard_exchange,
  handle_who_am_i, handle_libraries_bulk,
}
use charm_registry.Api.Handlers.Packages.{
  handle_list_packages, handle_register_package, handle_get_package, handle_patch_package,
  handle_delete_package,
}
use charm_registry.Api.Handlers.Revisions.{
  handle_list_revisions, handle_push_revision, handle_review_upload, handle_unscanned_upload,
  handle_charm_download,
}
use charm_registry.Api.Handlers.Resources.{
  handle_list_resources, handle_list_resource_revisions, handle_push_resource,
  handle_update_resource_revisions, handle_oci_upload_credentials, handle_oci_image_blob,
  handle_resource_download,
}
use charm_registry.Api.Handlers.Releases.{
  handle_list_releases, handle_release, handle_create_tracks, handle_find, handle_info,
  handle_refresh,
}

-- The routes that New registers, named after their handlers.
pub data Endpoint : Type 0 where
  to_root to_openapi to_docs to_get_tokens to_issue_token : Endpoint
  to_exchange_token to_offline_exchange to_revoke_token to_token_who_am_i to_dashboard_exchange :
      Endpoint
  to_who_am_i to_libraries_bulk to_list_packages to_register_package to_get_package : Endpoint
  to_patch_package to_delete_package to_list_revisions to_push_revision to_review_upload : Endpoint
  to_list_resources to_list_resource_revisions to_push_resource to_update_resource_revisions
        to_oci_upload_credentials :
      Endpoint
  to_oci_image_blob to_list_releases to_release to_create_tracks to_unscanned_upload : Endpoint
  to_find to_info to_refresh to_charm_download to_resource_download : Endpoint

-- The method and the pattern that New registers.
unfoldable pub route_of : Endpoint → String × String
route_of to_root = ("GET", "/")
route_of to_openapi = ("GET", "/openapi.yaml")
route_of to_docs = ("GET", "/docs")
route_of to_get_tokens = ("GET", "/v1/tokens")
route_of to_issue_token = ("POST", "/v1/tokens")
route_of to_exchange_token = ("POST", "/v1/tokens/exchange")
route_of to_offline_exchange = ("POST", "/v1/tokens/offline/exchange")
route_of to_revoke_token = ("POST", "/v1/tokens/revoke")
route_of to_token_who_am_i = ("GET", "/v1/tokens/whoami")
route_of to_dashboard_exchange = ("POST", "/v1/tokens/dashboard/exchange")
route_of to_who_am_i = ("GET", "/v1/whoami")
route_of to_libraries_bulk = ("POST", "/v1/charm/libraries/bulk")
route_of to_list_packages = ("GET", "/v1/charm")
route_of to_register_package = ("POST", "/v1/charm")
route_of to_get_package = ("GET", "/v1/charm/{name}")
route_of to_patch_package = ("PATCH", "/v1/charm/{name}")
route_of to_delete_package = ("DELETE", "/v1/charm/{name}")
route_of to_list_revisions = ("GET", "/v1/charm/{name}/revisions")
route_of to_push_revision = ("POST", "/v1/charm/{name}/revisions")
route_of to_review_upload = ("GET", "/v1/charm/{name}/revisions/review")
route_of to_list_resources = ("GET", "/v1/charm/{name}/resources")
route_of to_list_resource_revisions = ("GET", "/v1/charm/{name}/resources/{resource}/revisions")
route_of to_push_resource = ("POST", "/v1/charm/{name}/resources/{resource}/revisions")
route_of to_update_resource_revisions = ("PATCH", "/v1/charm/{name}/resources/{resource}/revisions")
route_of to_oci_upload_credentials =
    ("GET", "/v1/charm/{name}/resources/{resource}/oci-image/upload-credentials")
route_of to_oci_image_blob = ("POST", "/v1/charm/{name}/resources/{resource}/oci-image/blob")
route_of to_list_releases = ("GET", "/v1/charm/{name}/releases")
route_of to_release = ("POST", "/v1/charm/{name}/releases")
route_of to_create_tracks = ("POST", "/v1/charm/{name}/tracks")
route_of to_unscanned_upload = ("POST", "/unscanned-upload/")
route_of to_find = ("GET", "/v2/charms/find")
route_of to_info = ("GET", "/v2/charms/info/{name}")
route_of to_refresh = ("POST", "/v2/charms/refresh")
route_of to_charm_download = ("GET", "/api/v1/charms/download/{filename}")
route_of to_resource_download = ("GET", "/api/v1/resources/download/{filename}")

module _ (api : Api) where
  -- The handler that New registers.
  unfoldable pub handler_of : Endpoint → Handler api
  unfolding handle_root handle_openapi handle_docs handle_get_tokens handle_issue_token
      handle_exchange_token handle_revoke_token handle_token_who_am_i handle_dashboard_exchange
      handle_who_am_i handle_libraries_bulk handle_list_packages handle_register_package
      handle_get_package handle_patch_package handle_delete_package handle_list_revisions
      handle_push_revision handle_review_upload handle_list_resources handle_list_resource_revisions
      handle_push_resource handle_update_resource_revisions handle_oci_upload_credentials
      handle_oci_image_blob handle_list_releases handle_release handle_create_tracks
      handle_unscanned_upload handle_find handle_info handle_refresh handle_charm_download
      handle_resource_download
  handler_of to_root = handle_root api
  handler_of to_openapi = handle_openapi api open_api_spec
  handler_of to_docs = handle_docs api docs_page
  handler_of to_get_tokens = handle_get_tokens api
  handler_of to_issue_token = handle_issue_token api
  handler_of to_exchange_token = handle_exchange_token api
  handler_of to_offline_exchange = handle_exchange_token api
  handler_of to_revoke_token = handle_revoke_token api
  handler_of to_token_who_am_i = handle_token_who_am_i api
  handler_of to_dashboard_exchange = handle_dashboard_exchange api
  handler_of to_who_am_i = handle_who_am_i api
  handler_of to_libraries_bulk = handle_libraries_bulk api
  handler_of to_list_packages = handle_list_packages api
  handler_of to_register_package = handle_register_package api
  handler_of to_get_package = handle_get_package api
  handler_of to_patch_package = handle_patch_package api
  handler_of to_delete_package = handle_delete_package api
  handler_of to_list_revisions = handle_list_revisions api
  handler_of to_push_revision = handle_push_revision api
  handler_of to_review_upload = handle_review_upload api
  handler_of to_list_resources = handle_list_resources api
  handler_of to_list_resource_revisions = handle_list_resource_revisions api
  handler_of to_push_resource = handle_push_resource api
  handler_of to_update_resource_revisions = handle_update_resource_revisions api
  handler_of to_oci_upload_credentials = handle_oci_upload_credentials api
  handler_of to_oci_image_blob = handle_oci_image_blob api
  handler_of to_list_releases = handle_list_releases api
  handler_of to_release = handle_release api
  handler_of to_create_tracks = handle_create_tracks api
  handler_of to_unscanned_upload = handle_unscanned_upload api
  handler_of to_find = handle_find api
  handler_of to_info = handle_info api
  handler_of to_refresh = handle_refresh api
  handler_of to_charm_download = handle_charm_download api
  handler_of to_resource_download = handle_resource_download api

  -- The answer to a request that the router has matched, behind the middleware of the program.
  unfoldable pub serve : Endpoint → Handler api
  unfolding handler_of secured
  serve endpoint req w = let (r, w') = handler_of endpoint req w in (secured r, w')
