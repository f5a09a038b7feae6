-- ===== src/Api/Safety.antt =====
-- What the GET routes write.
use charm_registry.Prelude.{Bool, ◌≡◌, refl}
use charm_registry.Core.{Identity}
use charm_registry.Errors.{Result, map_error}
use charm_registry.Service.Context.{World, Action, ◌>>=◌, pure, read, lift}
use charm_registry.Service.Context.Keeping.{
  Keeps, Keeps-bind, Keeps-pure, Keeps-read, Keeps-lift, Keeps-now, Keeps-if,
}
use charm_registry.Service.Tokens.{list_store_tokens}
use charm_registry.Service.Revisions.{list_revisions, download_charm}
use charm_registry.Service.Resources.{download_resource}
use charm_registry.Api.Filenames.{parse_charm_download_filename, parse_resource_download_filename}
use charm_registry.Api.Responses.{Response}
use charm_registry.Api.Requests.{Request}
use charm_registry.Api.Identities.{Api, answered, identity_of, inspect}
use charm_registry.Api.Accounts.{
  IsOfCaller, WritesAtMostAccount, AtMostAccount, then-Keeps, Keeps-AtMostAccount,
  identity_of_writes,
}
use charm_registry.Api.Handlers.Tokens.{tokens_of}
use charm_registry.Api.Routes.{
  Endpoint, route_of, handler_of, serve, to_root, to_openapi, to_docs, to_get_tokens,
  to_issue_token, to_exchange_token, to_offline_exchange, to_revoke_token, to_token_who_am_i,
  to_dashboard_exchange, to_who_am_i, to_libraries_bulk, to_list_packages, to_register_package,
  to_get_package, to_patch_package, to_delete_package, to_list_revisions, to_push_revision,
  to_review_upload, to_list_resources, to_list_resource_revisions, to_push_resource,
  to_update_resource_revisions, to_oci_upload_credentials, to_oci_image_blob, to_list_releases,
  to_release, to_create_tracks, to_unscanned_upload, to_find, to_info, to_refresh,
  to_charm_download, to_resource_download,
}
use charm_registry.Api.Handlers.Tokens.{
  handle_root, handle_openapi, handle_docs, handle_get_tokens, handle_token_who_am_i,
  handle_who_am_i,
}
use charm_registry.Api.Handlers.Packages.{handle_list_packages, handle_get_package}
use charm_registry.Api.Handlers.Releases.{handle_list_releases, handle_find, handle_info}
use charm_registry.Api.Handlers.Revisions.{
  handle_list_revisions, handle_review_upload, handle_charm_download, bad_request, revision_param,
}
use charm_registry.Api.Handlers.Resources.{
  handle_list_resources, handle_list_resource_revisions, handle_oci_upload_credentials,
  handle_resource_download,
}

module _ (api : Api) where
  -- A response made by an action that writes at most the account.
  inspect-Keeps : {A : Type 0} (f : World api.svc → Result A) → Keeps (inspect api f)
  unfolding inspect
  inspect-Keeps f = record { same = λ w. (refl, refl) }

  list_store_tokens-Keeps :
      (identity : Identity) (all : Bool) → Keeps (list_store_tokens api.svc identity all)
  unfolding list_store_tokens
  list_store_tokens-Keeps identity all =
      Keeps-bind (Keeps-lift _) λ _. Keeps-bind Keeps-now λ t. Keeps-read _

  tokens_of-Keeps : (identity : Identity) (all : Bool) → Keeps (tokens_of api identity all)
  unfolding tokens_of
  tokens_of-Keeps identity all =
      Keeps-if _ (Keeps-pure _)
        (Keeps-bind (list_store_tokens-Keeps identity all) λ found. Keeps-pure _)

  -- A handler that identifies the caller and then only reads.
  only_reads :
      (req : Request) {k : Identity → Action api.svc Response}
      → ((identity : Identity) → Keeps (k identity))
      → AtMostAccount api (IsOfCaller api req) (identity_of api req >>= k)
  only_reads req keeps = then-Keeps api (identity_of_writes api req) keeps

  read_then :
      {A B : Type 0} (f : api.svc.repo.State → Result A) (g : A → B)
      → Keeps (read {s = api.svc} f >>= λ a. pure (g a))
  read_then f g = Keeps-bind (Keeps-read f) λ a. Keeps-pure _

  lift_then :
      {A B : Type 0} (r : Result A) (g : A → B) → Keeps (lift {s = api.svc} r >>= λ a. pure (g a))
  lift_then r g = Keeps-bind (Keeps-lift r) λ a. Keeps-pure _

  parsed_read_then :
      {A B : Type 0} (r : Result A) (f : A → api.svc.repo.State → Result B) (g : B → Response)
      → Keeps (lift {s = api.svc} r >>= λ a. read (f a) >>= λ b. pure (g b))
  parsed_read_then r f g = Keeps-bind (Keeps-lift r) λ a. read_then (f a) g

  parsed_inspect_then :
      {A B : Type 0} (r : Result A) (f : A → World api.svc → Result B) (g : B → Response)
      → Keeps (lift r >>= λ a. inspect api (f a) >>= λ b. pure (g b))
  parsed_inspect_then r f g =
      Keeps-bind (Keeps-lift r) λ a. Keeps-bind (inspect-Keeps (f a)) λ b. Keeps-pure (g b)

  record WritesOnly (req : Request) (handle : World api.svc → Response × World api.svc)
      : Type 0 where
    at : (w : World api.svc) → WritesAtMostAccount api (IsOfCaller api req w) w (handle w).1

  answers :
      {req : Request} {m : Action api.svc Response}
      → AtMostAccount api (IsOfCaller api req) m
      → WritesOnly req (answered api m)
  unfolding answered
  answers writes = record { at = writes.at_most }

  get_writes :
      (endpoint : Endpoint) (req : Request)
      → (route_of endpoint).0 ≡ "GET"
      → WritesOnly req (handler_of api endpoint req)
  unfolding route_of handler_of handle_root handle_openapi handle_docs handle_get_tokens
      handle_token_who_am_i handle_who_am_i handle_list_packages handle_get_package
      handle_list_revisions handle_review_upload handle_list_resources
      handle_list_resource_revisions handle_oci_upload_credentials handle_list_releases handle_find
      handle_info handle_charm_download handle_resource_download
  get_writes to_root req h = answers (Keeps-AtMostAccount api (Keeps-pure _))
  get_writes to_openapi req h = answers (Keeps-AtMostAccount api (Keeps-pure _))
  get_writes to_docs req h = answers (Keeps-AtMostAccount api (Keeps-pure _))
  get_writes to_get_tokens req h = answers (only_reads req (λ identity. tokens_of-Keeps identity _))
  get_writes to_issue_token req h = cc
  get_writes to_exchange_token req h = cc
  get_writes to_offline_exchange req h = cc
  get_writes to_revoke_token req h = cc
  get_writes to_token_who_am_i req h = answers (only_reads req (λ identity. lift_then _ _))
  get_writes to_dashboard_exchange req h = cc
  get_writes to_who_am_i req h = answers (only_reads req (λ identity. lift_then _ _))
  get_writes to_libraries_bulk req h = cc
  get_writes to_list_packages req h = answers (only_reads req (λ identity. read_then _ _))
  get_writes to_register_package req h = cc
  get_writes to_get_package req h = answers (only_reads req (λ identity. read_then _ _))
  get_writes to_patch_package req h = cc
  get_writes to_delete_package req h = cc
  get_writes to_list_revisions req h = answers (
      only_reads req (λ identity.
        parsed_read_then (revision_param (req.query "revision"))
          (list_revisions api.svc identity (req.url_param "name")) _))
  get_writes to_push_revision req h = cc
  get_writes to_review_upload req h = answers (only_reads req (λ identity. read_then _ _))
  get_writes to_list_resources req h = answers (only_reads req (λ identity. read_then _ _))
  get_writes to_list_resource_revisions req h = answers (only_reads req (λ identity. read_then _ _))
  get_writes to_push_resource req h = cc
  get_writes to_update_resource_revisions req h = cc
  get_writes to_oci_upload_credentials req h = answers (only_reads req (λ identity. read_then _ _))
  get_writes to_oci_image_blob req h = cc
  get_writes to_list_releases req h = answers (only_reads req (λ identity. read_then _ _))
  get_writes to_release req h = cc
  get_writes to_create_tracks req h = cc
  get_writes to_unscanned_upload req h = cc
  get_writes to_find req h = answers (only_reads req (λ identity. read_then _ _))
  get_writes to_info req h = answers (only_reads req (λ identity. read_then _ _))
  get_writes to_refresh req h = cc
  get_writes to_charm_download req h = answers (
      only_reads req (λ identity.
        parsed_inspect_then
          (map_error bad_request (parse_charm_download_filename (req.url_param "filename")))
          (λ parsed. download_charm api.svc identity parsed.0 parsed.1) _))
  get_writes to_resource_download req h = answers (
      only_reads req (λ identity.
        parsed_inspect_then
          (map_error bad_request (parse_resource_download_filename (req.url_param "filename")))
          (λ parsed. download_resource api.svc identity parsed.0 parsed.1 parsed.2) _))

  -- A GET request writes at most the account of its caller: every file stays as it was, and the
  -- database too, but for one call of EnsureAccount, with the subject of the claims that Authenticate
  -- reads from the credentials of the request.
  pub get-WritesAtMostAccount :
      (endpoint : Endpoint) (req : Request) (w : World api.svc)
      → (route_of endpoint).0 ≡ "GET"
      → WritesAtMostAccount api (IsOfCaller api req w) w (serve api endpoint req w).1
  unfolding serve
  get-WritesAtMostAccount endpoint req w get = (get_writes endpoint req get).at w
