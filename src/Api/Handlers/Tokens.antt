-- ===== src/Api/Handlers/Tokens.antt =====
-- internal/api/http_tokens.go and http_libraries.go: the root documents, tokens and libraries. The
-- texts of the OpenAPI document and of the page on it are arguments, as they are only copied.
use charm_registry.Prelude.{String, Bool, true, not, ◌==◌, none, map, if◌then◌else◌}
use charm_registry.Core.{Identity}
use charm_registry.Auth.Macaroons.{wrap_in_macaroon}
use charm_registry.Service.Context.{◌>>=◌, ◌>>◌, pure, lift, Action}
use charm_registry.Service.Root.{root_document}
use charm_registry.Service.Tokens.{
  issue_store_token, exchange_store_token, list_store_tokens, revoke_store_token, macaroon_info,
  deprecated_who_am_i,
}
use charm_registry.Api.Documents.{
  root, macaroon, token_views, tokens, token_info, account, libraries, view_of_token,
}
use charm_registry.Api.Responses.{Response, write_json, write_text}
use charm_registry.Api.Requests.{body_of, or_at_end}
use charm_registry.Api.Identities.{
  Api, Handler, answered, identity_of, or_dev_identity, or_macaroon_identity,
}

module _ (api : Api) where
  unfoldable pub handle_root : Handler api
  unfolding answered pure write_json root_document
  handle_root req = answered api (pure (write_json 200 (root (root_document api.svc.cfg))))

  -- handleOpenAPI, with openAPISpec
  unfoldable pub handle_openapi : String → Handler api
  unfolding answered pure write_text
  handle_openapi spec req = answered api (pure (write_text "application/yaml" spec))

  unfoldable pub handle_docs : String → Handler api
  unfolding answered pure write_text
  handle_docs page req = answered api (pure (write_text "text/html; charset=utf-8" page))

  -- handleGetTokens of a caller that is identified
  unfoldable pub tokens_of : Identity → Bool → Action api.svc Response
  unfolding pure list_store_tokens view_of_token write_json
  tokens_of identity include_inactive =
      if not identity.authenticated
      then pure (write_json 200 (macaroon "oidc-login-required"))
      else (do
        found ← list_store_tokens api.svc identity include_inactive
        pure (write_json 200 (token_views (map view_of_token found))))

  unfoldable pub handle_get_tokens : Handler api
  unfolding answered identity_of tokens_of
  handle_get_tokens req = answered api (do
    identity ← identity_of api req
    tokens_of identity (req.query "include-inactive" == "true"))

  unfoldable pub handle_issue_token : Handler api
  unfolding answered identity_of or_dev_identity lift body_of issue_store_token pure write_json
      wrap_in_macaroon
  handle_issue_token req = answered api (do
    caller ← identity_of api req
    identity ← or_dev_identity api caller
    body ← lift (body_of api.svc.cfg api.json.issue req)
    (raw, token) ← issue_store_token api.svc identity body
    pure (write_json 200 (macaroon (wrap_in_macaroon api.codec raw api.svc.cfg.public_api_url))))

  unfoldable pub handle_exchange_token : Handler api
  unfolding answered identity_of or_macaroon_identity exchange_store_token pure write_json
  handle_exchange_token req = answered api (do
    caller ← identity_of api req
    identity ← or_macaroon_identity api caller req
    raw ← exchange_store_token api.svc identity none
    pure (write_json 200 (macaroon raw)))

  unfoldable pub handle_dashboard_exchange : Handler api
  unfolding answered identity_of lift body_of or_at_end exchange_store_token pure write_json
  handle_dashboard_exchange req = answered api (do
    identity ← identity_of api req
    description ← lift (
        body_of api.svc.cfg (λ limit raw. or_at_end none (api.json.client_description limit raw))
          req)
    raw ← exchange_store_token api.svc identity description
    pure (write_json 200 (macaroon raw)))

  unfoldable pub handle_revoke_token : Handler api
  unfolding answered identity_of lift body_of revoke_store_token list_store_tokens pure write_json
  handle_revoke_token req = answered api (do
    identity ← identity_of api req
    session_id ← lift (body_of api.svc.cfg api.json.session_id req)
    revoke_store_token api.svc identity session_id
    found ← list_store_tokens api.svc identity true
    pure (write_json 200 (tokens found)))

  -- handleTokenWhoAmI
  unfoldable pub handle_token_who_am_i : Handler api
  unfolding answered identity_of lift macaroon_info pure write_json
  handle_token_who_am_i req = answered api (do
    identity ← identity_of api req
    payload ← lift (macaroon_info identity)
    pure (write_json 200 (token_info payload)))

  -- handleWhoAmI
  unfoldable pub handle_who_am_i : Handler api
  unfolding answered identity_of lift deprecated_who_am_i pure write_json
  handle_who_am_i req = answered api (do
    identity ← identity_of api req
    payload ← lift (deprecated_who_am_i identity)
    pure (write_json 200 (account payload)))

  -- handleLibrariesBulk; the body is read and dropped
  unfoldable pub handle_libraries_bulk : Handler api
  unfolding answered pure write_json
  handle_libraries_bulk req = answered api (pure (write_json 200 libraries))
