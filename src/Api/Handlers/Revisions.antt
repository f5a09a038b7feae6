-- ===== src/Api/Handlers/Revisions.antt =====
-- internal/api/http_revisions.go: revisions and uploads.
use charm_registry.Prelude.{String, Option, none, some, ◌==◌, ℤ, map, if◌then◌else◌}
use charm_registry.Errors.{Result, ok, err, Error, new_error, map_error, ◌>>=◌ as ◌and_then◌}
use charm_registry.Service.Context.{World, ◌>>=◌, pure, read, lift}
use charm_registry.Service.Revisions.{
  create_upload, push_revision, review_upload, list_revisions, download_charm, error_text,
}
use charm_registry.Core.{Upload}
use charm_registry.Api.Filenames.{parse_int, parse_charm_download_filename}
use charm_registry.Api.Documents.{revisions, revision_row, status_url, review, upload}
use charm_registry.Api.Responses.{Response, bytes, write_json, write_attachment}
use charm_registry.Api.Requests.{body_of}
use charm_registry.Api.Identities.{Api, Handler, answered, identity_of, inspect}

-- serviceError(http.StatusBadRequest, "invalid-request", parseErr.Error())
unfoldable pub bad_request : Error → Error
unfolding error_text
bad_request e = new_error 400 "invalid-request" (error_text e)

-- The query parameter "revision" of handleListRevisions.
unfoldable pub revision_param : String → Result (Option ℤ)
unfolding parse_int bad_request
revision_param raw =
    if raw == ""
    then ok none
    else map_error bad_request (parse_int raw) and_then λ number. ok (some number)

-- The two answers of handleUnscannedUpload to a failure, by their status.
unfoldable pub upload_answer : Result Upload → Response
unfolding write_json
upload_answer (ok stored) = write_json 200 (upload (some stored.id))
upload_answer (err e) = write_json 500 (upload none)

module _ (api : Api) where
  unfoldable pub handle_list_revisions : Handler api
  unfolding answered identity_of lift revision_param read list_revisions revision_row pure
      write_json
  handle_list_revisions req = answered api (do
    identity ← identity_of api req
    number ← lift (revision_param (req.query "revision"))
    found ← read (list_revisions api.svc identity (req.url_param "name") number)
    pure (write_json 200 (revisions (map revision_row found))))

  unfoldable pub handle_push_revision : Handler api
  unfolding answered identity_of lift body_of push_revision pure write_json
  handle_push_revision req = answered api (do
    identity ← identity_of api req
    upload_id ← lift (body_of api.svc.cfg api.json.upload_id req)
    url ← push_revision api.svc identity (req.url_param "name") upload_id
    pure (write_json 200 (status_url url)))

  unfoldable pub handle_review_upload : Handler api
  unfolding answered identity_of read review_upload pure write_json
  handle_review_upload req = answered api (do
    identity ← identity_of api req
    payload ← read (review_upload api.svc identity (req.url_param "name") (req.query "upload-id"))
    pure (write_json 200 (review payload)))

  -- handleUnscannedUpload of the file of the form, where it can be read; nobody is identified
  unfoldable pub stored_upload : Option (String × String) → World api.svc → Response × World api.svc
  unfolding create_upload upload_answer write_json
  stored_upload none w = (write_json 400 (upload none), w)
  stored_upload (some (filename, payload)) w =
      let (r, w') = create_upload api.svc filename payload w in (upload_answer r, w')

  unfoldable pub handle_unscanned_upload : Handler api
  unfolding stored_upload
  handle_unscanned_upload req = stored_upload (api.form_file api.svc.cfg.max_upload_bytes req.body)

  unfoldable pub handle_charm_download : Handler api
  unfolding answered identity_of lift parse_charm_download_filename bad_request inspect
      download_charm pure write_attachment
  handle_charm_download req = answered api (do
    identity ← identity_of api req
    (package_id, number) ←
        lift (map_error bad_request (parse_charm_download_filename (req.url_param "filename")))
    payload ← inspect api (download_charm api.svc identity package_id number)
    pure (write_attachment "artifact.charm" "application/octet-stream" (bytes payload)))
