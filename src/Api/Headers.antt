-- ===== src/Api/Headers.antt =====
-- The headers of every answer.
use charm_registry.Prelude.{
  ℕ, String, Bool, true, false, ◌≡◌, refl, Option, none, some, if◌then◌else◌,
}
use charm_registry.Prelude.Maps.{Map, lookup, insert}
use charm_registry.Errors.{Result, ok, err, Error, service, not_found, conflict, failure}
use charm_registry.Core.{Identity, Upload}
use charm_registry.Service.Context.{World, Action, ◌>>=◌, continue, pure, read}
use charm_registry.Service.Revisions.{create_upload}
use charm_registry.Api.Documents.{Document}
use charm_registry.Api.Responses.{
  Response, Body, secured, security_headers, set_all, write_json, write_text, write_attachment,
  write_error,
}
use charm_registry.Api.Requests.{Request}
use charm_registry.Api.Identities.{Api, answered, response_of}
use charm_registry.Api.Routes.{
  Endpoint, handler_of, serve, to_root, to_openapi, to_docs, to_get_tokens, to_issue_token,
  to_exchange_token, to_offline_exchange, to_revoke_token, to_token_who_am_i, to_dashboard_exchange,
  to_who_am_i, to_libraries_bulk, to_list_packages, to_register_package, to_get_package,
  to_patch_package, to_delete_package, to_list_revisions, to_push_revision, to_review_upload,
  to_list_resources, to_list_resource_revisions, to_push_resource, to_update_resource_revisions,
  to_oci_upload_credentials, to_oci_image_blob, to_list_releases, to_release, to_create_tracks,
  to_unscanned_upload, to_find, to_info, to_refresh, to_charm_download, to_resource_download,
}
use charm_registry.Api.Handlers.Tokens.{
  handle_root, handle_openapi, handle_docs, handle_get_tokens, handle_issue_token,
  handle_exchange_token, handle_dashboard_exchange, handle_revoke_token, handle_token_who_am_i,
  handle_who_am_i, handle_libraries_bulk, tokens_of,
}
use charm_registry.Api.Handlers.Packages.{
  handle_register_package, handle_list_packages, handle_get_package, handle_patch_package,
  handle_delete_package,
}
use charm_registry.Api.Handlers.Releases.{
  handle_list_releases, handle_release, handle_create_tracks, handle_find, handle_info,
  handle_refresh,
}
use charm_registry.Api.Handlers.Revisions.{
  handle_list_revisions, handle_push_revision, handle_review_upload, handle_unscanned_upload,
  handle_charm_download, stored_upload, upload_answer,
}
use charm_registry.Api.Handlers.Resources.{
  handle_list_resources, handle_list_resource_revisions, handle_push_resource,
  handle_update_resource_revisions, handle_oci_upload_credentials, handle_oci_image_blob,
  handle_resource_download,
}

-- The four headers of securityHeaders are there with their values.
pub record HasSecurityHeaders (headers : Map String) : Type 0 where
  pub policy :
      lookup "Content-Security-Policy" headers
      ≡ some "default-src 'none'; frame-ancestors 'none'; base-uri 'none'; form-action 'none'"
  pub referrer : lookup "Referrer-Policy" headers ≡ some "no-referrer"
  pub sniffing : lookup "X-Content-Type-Options" headers ≡ some "nosniff"
  pub frames : lookup "X-Frame-Options" headers ≡ some "DENY"

-- The headers of a response leave those of securityHeaders as they are.
record Leaves (response : Response) : Type 0 where
  left : HasSecurityHeaders (secured response).headers

write_json-Leaves : (status : ℕ) (payload : Document) → Leaves (write_json status payload)
unfolding secured set_all insert security_headers lookup write_json
write_json-Leaves status payload = record {
  left = record { policy = refl; referrer = refl; sniffing = refl; frames = refl };
}

write_text-Leaves : (content_type contents : String) → Leaves (write_text content_type contents)
unfolding secured set_all insert security_headers lookup write_text
write_text-Leaves content_type contents = record {
  left = record { policy = refl; referrer = refl; sniffing = refl; frames = refl };
}

write_attachment-Leaves :
    (filename content_type : String) (body : Body)
    → Leaves (write_attachment filename content_type body)
unfolding secured set_all insert security_headers lookup write_attachment
write_attachment-Leaves filename content_type body = record {
  left = record { policy = refl; referrer = refl; sniffing = refl; frames = refl };
}

write_error-Leaves : (e : Error) → Leaves (write_error e)
unfolding write_error
write_error-Leaves (service e) = write_json-Leaves e.status _
write_error-Leaves not_found = write_json-Leaves 404 _
write_error-Leaves conflict = write_json-Leaves 500 _
write_error-Leaves (failure message) = write_json-Leaves 500 _

upload_answer-Leaves : (r : Result Upload) → Leaves (upload_answer r)
unfolding upload_answer
upload_answer-Leaves (ok stored) = write_json-Leaves 200 _
upload_answer-Leaves (err e) = write_json-Leaves 500 _

module _ (api : Api) where
  record Hardens (m : Action api.svc Response) : Type 0 where
    at : (w : World api.svc) → Leaves (response_of (m w).0)

  Hardens-continue :
      {A : Type 0} (r : Result A) (k : A → Action api.svc Response) (w : World api.svc)
      → ((a : A) → Hardens (k a))
      → Leaves (response_of (continue r k w).0)
  unfolding response_of
  Hardens-continue (ok a) k w rest = (rest a).at w
  Hardens-continue (err e) k w rest = write_error-Leaves e

  bind :
      {A : Type 0} (m : Action api.svc A) (k : A → Action api.svc Response)
      → ((a : A) → Hardens (k a))
      → Hardens (m >>= k)
  unfolding ◌>>=◌
  bind m k rest = record { at = λ w. Hardens-continue (m w).0 k (m w).1 rest }

  bind_read :
      {A : Type 0} (f : api.svc.repo.State → Result A) (k : A → Action api.svc Response)
      → ((a : A) → Hardens (k a))
      → Hardens (read f >>= k)
  bind_read f k rest = bind (read f) k rest

  finish : {response : Response} → Leaves response → Hardens (pure response)
  unfolding pure response_of
  finish leaves = record { at = λ w. leaves }

  either :
      (b : Bool) {m k : Action api.svc Response}
      → Hardens m
      → Hardens k
      → Hardens (if b then m else k)
  either true first second = first
  either false first second = second

  record Hardened (handle : World api.svc → Response × World api.svc) : Type 0 where
    at : (w : World api.svc) → Leaves (handle w).0

  answering : {m : Action api.svc Response} → Hardens m → Hardened (answered api m)
  unfolding answered
  answering hardens = record { at = hardens.at }

  tokens_of-Hardens : (identity : Identity) (all : Bool) → Hardens (tokens_of api identity all)
  unfolding tokens_of
  tokens_of-Hardens identity all =
      either _ (finish (write_json-Leaves 200 _))
        (bind _ _ λ found. finish (write_json-Leaves 200 _))

  ruleset header_rules = (
    answering, bind, bind_read, finish, write_json-Leaves, write_text-Leaves,
    write_attachment-Leaves, tokens_of-Hardens,
  )

  stored_upload-Hardened : (form : Option (String × String)) → Hardened (stored_upload api form)
  unfolding stored_upload
  stored_upload-Hardened none = record { at = λ w. write_json-Leaves 400 _ }
  stored_upload-Hardened (some (filename, payload)) = record {
    at = λ w. upload_answer-Leaves (create_upload api.svc filename payload w).0;
  }

  hardened : (endpoint : Endpoint) (req : Request) → Hardened (handler_of api endpoint req)
  unfolding handler_of handle_root handle_openapi handle_docs handle_get_tokens handle_issue_token
      handle_exchange_token handle_revoke_token handle_token_who_am_i handle_dashboard_exchange
      handle_who_am_i handle_libraries_bulk handle_list_packages handle_register_package
      handle_get_package handle_patch_package handle_delete_package handle_list_revisions
      handle_push_revision handle_review_upload handle_list_resources handle_list_resource_revisions
      handle_push_resource handle_update_resource_revisions handle_oci_upload_credentials
      handle_oci_image_blob handle_list_releases handle_release handle_create_tracks
      handle_unscanned_upload handle_find handle_info handle_refresh handle_charm_download
      handle_resource_download
  hardened to_root req = search header_rules depth 9
  hardened to_openapi req = search header_rules depth 9
  hardened to_docs req = search header_rules depth 9
  hardened to_get_tokens req = search header_rules depth 9
  hardened to_issue_token req = search header_rules depth 9
  hardened to_exchange_token req = search header_rules depth 9
  hardened to_offline_exchange req = search header_rules depth 9
  hardened to_revoke_token req = search header_rules depth 9
  hardened to_token_who_am_i req = search header_rules depth 9
  hardened to_dashboard_exchange req = search header_rules depth 9
  hardened to_who_am_i req = search header_rules depth 9
  hardened to_libraries_bulk req = search header_rules depth 9
  hardened to_list_packages req = search header_rules depth 9
  hardened to_register_package req = search header_rules depth 9
  hardened to_get_package req = search header_rules depth 9
  hardened to_patch_package req = search header_rules depth 9
  hardened to_delete_package req = search header_rules depth 9
  hardened to_list_revisions req = search header_rules depth 9
  hardened to_push_revision req = search header_rules depth 9
  hardened to_review_upload req = search header_rules depth 9
  hardened to_list_resources req = search header_rules depth 9
  hardened to_list_resource_revisions req = search header_rules depth 9
  hardened to_push_resource req = search header_rules depth 9
  hardened to_update_resource_revisions req = search header_rules depth 9
  hardened to_oci_upload_credentials req = search header_rules depth 9
  hardened to_oci_image_blob req = search header_rules depth 9
  hardened to_list_releases req = search header_rules depth 9
  hardened to_release req = search header_rules depth 9
  hardened to_create_tracks req = search header_rules depth 9
  hardened to_unscanned_upload req = stored_upload-Hardened _
  hardened to_find req = search header_rules depth 9
  hardened to_info req = search header_rules depth 9
  hardened to_refresh req = search header_rules depth 9
  hardened to_charm_download req = search header_rules depth 9
  hardened to_resource_download req = search header_rules depth 9

  -- Every answer of every route, errors included, has the four headers of securityHeaders.
  pub serve-HasSecurityHeaders :
      (endpoint : Endpoint) (req : Request) (w : World api.svc)
      → HasSecurityHeaders (serve api endpoint req w).0.headers
  unfolding serve
  serve-HasSecurityHeaders endpoint req w = ((hardened endpoint req).at w).left
