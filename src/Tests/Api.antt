-- ===== src/Tests/Api.antt =====
-- The theorems on the HTTP layer, for a small registry in memory.
use charm_registry.Prelude.{
  String, true, false, ◌≡◌, ◌≢◌, refl, ◌⊎◌, none, some, [], ◌==◌, if◌then◌else◌,
}
use charm_registry.Errors.{ok, err, failure}
use charm_registry.Config.{Config}
use charm_registry.Config.Load.{Environment, getenv, load}
use charm_registry.Config.Urls.{HasPlainUrls, load-HasPlainUrls}
use charm_registry.Auth.Authenticator.{authenticate, secret_of}
use charm_registry.Text.{trim_space, has_prefix, cut_prefix}
use charm_registry.Service.Guards.{perm_package_manage}
use charm_registry.Api.Documents.{error_list}
use charm_registry.Api.Responses.{secured, write_json}
use charm_registry.Api.Requests.{Request, JsonDecoders, decoded, at_end, malformed, too_large}
use charm_registry.Api.Identities.{Api, authenticator}
use charm_registry.Api.Routes.{route_of, serve, to_list_packages, to_delete_package, to_get_package}
use charm_registry.Api.Callers.{identifies, serve_rejects}
use charm_registry.Api.Accounts.{IsOfCaller, WritesAtMostAccount}
use charm_registry.Api.Safety.{get-WritesAtMostAccount}
use charm_registry.Api.Headers.{HasSecurityHeaders, serve-HasSecurityHeaders}
use charm_registry.Api.Writers.{ByManager}
use charm_registry.Api.Authorization.{managed_permission, Declines, serve_is_authorized}
use charm_registry.Tests.Fixtures.{service, runtime, world}
use charm_registry.Tests.Macaroons.{codec}

-- Bodies that hold one document.
abbrev pub decoders : JsonDecoders
decoders = record {
  register = λ limit raw. decoded (record { name = raw; private = none; type = "charm" }) true;
  patch = λ limit raw. malformed "unexpected token";
  releases = λ limit raw. decoded [] true;
  tracks = λ limit raw. decoded [] true;
  refresh_actions = λ limit raw. decoded [] true;
  upload_id = λ limit raw. decoded raw true;
  resource = λ limit raw. too_large;
  resource_updates = λ limit raw. decoded [] true;
  image_digest = λ limit raw. decoded raw true;
  issue = λ limit raw. at_end;
  client_description = λ limit raw. at_end;
  session_id = λ limit raw. decoded raw false;
}

abbrev pub api : Api
api = record {
  svc = service;
  verifier = none;
  json = decoders;
  codec = codec;
  form_file = λ limit raw. none;
}

abbrev pub request : String → Request
request credentials = record {
  header = λ name. if name == "Authorization" then credentials else "";
  url_param = λ name. "nginx";
  query = λ name. "";
  body = "";
}

refused :
    authenticate runtime (authenticator api world.db) 0 "Basic secret"
    ≡ err (failure "cannot authenticate: unsupported authorization scheme")
unfolding authenticate secret_of trim_space has_prefix cut_prefix
refused = refl

serve_rejects_example : serve api to_list_packages (request "Basic secret") world ≡ (
  secured (write_json 401 (error_list "unauthorized" "authentication required")),
  record world { calls = 1 },
)
unfolding identifies
serve_rejects_example =
    serve_rejects api to_list_packages (request "Basic secret") world
      (failure "cannot authenticate: unsupported authorization scheme") refl refused

get-WritesAtMostAccount_example :
    WritesAtMostAccount api
      (IsOfCaller api (request "") world)
      world
      (serve api to_get_package (request "") world).1
unfolding route_of
get-WritesAtMostAccount_example = get-WritesAtMostAccount api to_get_package (request "") world refl

serve-HasSecurityHeaders_example :
    HasSecurityHeaders (serve api to_get_package (request "") world).0.headers
serve-HasSecurityHeaders_example = serve-HasSecurityHeaders api to_get_package (request "") world

serve_is_authorized_example :
    ByManager api (request "") perm_package_manage world
    ⊎ Declines api to_delete_package (request "") world
unfolding managed_permission
serve_is_authorized_example =
    serve_is_authorized api to_delete_package (request "") perm_package_manage world refl

abbrev environment : Environment
environment = record {
  lookup_env = λ key.
      if key == "CHARM_REGISTRY_DATABASE_URL"
      then some "postgres://db"
      else if key == "CHARM_REGISTRY_PUBLIC_API_URL"
      then some "http://api//"
      else none;
  parse_duration = λ raw. none;
}

load-HasPlainUrls_example :
    ((getenv environment "CHARM_REGISTRY_DATABASE_URL" ≡ "")
      × (load environment ≡ err (failure "CHARM_REGISTRY_DATABASE_URL is required")))
    ⊎ ((getenv environment "CHARM_REGISTRY_DATABASE_URL" ≢ "")
        × ((cfg : Config) × (load environment ≡ ok cfg)
            × (cfg.database_url ≡ getenv environment "CHARM_REGISTRY_DATABASE_URL")
            × HasPlainUrls cfg))
load-HasPlainUrls_example = load-HasPlainUrls environment
