-- ===== src/Api/Handlers/Resources.antt =====
-- internal/api/http_resources.go: resources.
use charm_registry.Prelude.{map}
use charm_registry.Errors.{map_error}
use charm_registry.Service.Context.{◌>>=◌, pure, read, lift}
use charm_registry.Service.Resources.{
  list_resources, list_resource_revisions, push_resource, update_resource_revisions,
  oci_image_upload_credentials, oci_image_blob, download_resource,
}
use charm_registry.Api.Filenames.{parse_resource_download_filename}
use charm_registry.Api.Documents.{
  resources, resource_revisions, resource_row, resources_updated, credentials, status_url,
}
use charm_registry.Api.Responses.{bytes, oci_blob, write_json, write_attachment}
use charm_registry.Api.Requests.{body_of}
use charm_registry.Api.Identities.{Api, Handler, answered, identity_of, inspect}
use charm_registry.Api.Handlers.Revisions.{bad_request}

module _ (api : Api) where
  unfoldable pub handle_list_resources : Handler api
  unfolding answered identity_of read list_resources pure write_json
  handle_list_resources req = answered api (do
    identity ← identity_of api req
    found ← read (list_resources api.svc identity (req.url_param "name"))
    pure (write_json 200 (resources found)))

  unfoldable pub handle_list_resource_revisions : Handler api
  unfolding answered identity_of read list_resource_revisions resource_row pure write_json
  handle_list_resource_revisions req = answered api (do
    identity ← identity_of api req
    found ←
        read (
          list_resource_revisions api.svc identity (req.url_param "name")
            (req.url_param "resource"))
    pure (write_json 200 (resource_revisions (map resource_row found))))

  unfoldable pub handle_push_resource : Handler api
  unfolding answered identity_of lift body_of push_resource pure write_json
  handle_push_resource req = answered api (do
    identity ← identity_of api req
    body ← lift (body_of api.svc.cfg api.json.resource req)
    url ← push_resource api.svc identity (req.url_param "name") (req.url_param "resource") body
    pure (write_json 200 (status_url url)))

  unfoldable pub handle_update_resource_revisions : Handler api
  unfolding answered identity_of lift body_of update_resource_revisions pure write_json
  handle_update_resource_revisions req = answered api (do
    identity ← identity_of api req
    body ← lift (body_of api.svc.cfg api.json.resource_updates req)
    updated ←
        update_resource_revisions api.svc identity (req.url_param "name") (req.url_param "resource")
          body
    pure (write_json 200 (resources_updated updated)))

  unfoldable pub handle_oci_upload_credentials : Handler api
  unfolding answered identity_of read oci_image_upload_credentials pure write_json
  handle_oci_upload_credentials req = answered api (do
    identity ← identity_of api req
    payload ← read (
        oci_image_upload_credentials api.svc identity (req.url_param "name")
          (req.url_param "resource"))
    pure (write_json 200 (credentials payload)))

  unfoldable pub handle_oci_image_blob : Handler api
  unfolding answered identity_of lift body_of oci_image_blob pure write_attachment
  handle_oci_image_blob req = answered api (do
    identity ← identity_of api req
    digest ← lift (body_of api.svc.cfg api.json.image_digest req)
    let payload =
        oci_image_blob api.svc.cfg identity (req.url_param "name") (req.url_param "resource") digest
    pure (write_attachment "oci-image-blob.json" "text/plain; charset=utf-8" (oci_blob payload)))

  unfoldable pub handle_resource_download : Handler api
  unfolding answered identity_of lift parse_resource_download_filename bad_request inspect
      download_resource pure write_attachment
  handle_resource_download req = answered api (do
    identity ← identity_of api req
    (package_id, resource_name, number) ←
        lift (map_error bad_request (parse_resource_download_filename (req.url_param "filename")))
    payload ← inspect api (download_resource api.svc identity package_id resource_name number)
    pure (write_attachment "resource.bin" "application/octet-stream" (bytes payload)))
