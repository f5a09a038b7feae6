-- ===== src/Api/Texts.antt =====
-- internal/api: the two texts that the registry serves about itself.
use Prim.Native.String.{String, ◌++◌}

-- openAPISpec
abbrev pub open_api_spec : String
open_api_spec =
    "openapi: 3.1.0\n" ++ "info:\n" ++ "  title: Private Charm Registry MVP\n"
    ++ "  version: 0.1.0\n" ++ "paths:\n" ++ "  /v1/charm:\n" ++ "    get:\n"
    ++ "      summary: List registered charm names for the authenticated account\n" ++ "    post:\n"
    ++ "      summary: Register a charm name\n" ++ "  /v1/charm/{name}:\n" ++ "    get:\n"
    ++ "      summary: Get package metadata\n" ++ "    patch:\n"
    ++ "      summary: Update package metadata\n" ++ "    delete:\n"
    ++ "      summary: Unregister an unpublished package\n" ++ "  /v1/charm/{name}/revisions:\n"
    ++ "    get:\n" ++ "      summary: List package revisions\n" ++ "    post:\n"
    ++ "      summary: Create a package revision from an upload\n"
    ++ "  /v1/charm/{name}/resources/{resource}/revisions:\n" ++ "    get:\n"
    ++ "      summary: List resource revisions\n" ++ "    post:\n"
    ++ "      summary: Create a resource revision from an upload\n"
    ++ "  /v1/charm/{name}/releases:\n" ++ "    get:\n"
    ++ "      summary: List releases for a package\n" ++ "    post:\n"
    ++ "      summary: Release one or more revisions to channels\n"
    ++ "  /v1/charm/{name}/tracks:\n" ++ "    post:\n"
    ++ "      summary: Create tracks for a package\n" ++ "  /v1/tokens:\n" ++ "    get:\n"
    ++ "      summary: List store tokens for the authenticated account\n" ++ "    post:\n"
    ++ "      summary: Issue a store token\n" ++ "  /v1/tokens/whoami:\n" ++ "    get:\n"
    ++ "      summary: Describe the currently authenticated store token\n"
    ++ "  /v1/tokens/dashboard/exchange:\n" ++ "    post:\n"
    ++ "      summary: Exchange an OIDC-authenticated session for a store token\n"
    ++ "  /v2/charms/find:\n" ++ "    get:\n" ++ "      summary: Search charms\n"
    ++ "  /v2/charms/info/{name}:\n" ++ "    get:\n" ++ "      summary: Get charm info\n"
    ++ "  /v2/charms/refresh:\n" ++ "    post:\n"
    ++ "      summary: Resolve revisions and resources for Juju refresh/install flows\n"

-- The page of handleDocs.
abbrev pub docs_page : String
docs_page =
    "<!doctype html>\n" ++ "<html>\n"
    ++ "  <head><meta charset=\"utf-8\"><title>Charm Registry Docs</title></head>\n" ++ "  <body>\n"
    ++ "    <h1>Private Charm Registry</h1>\n"
    ++ "    <p>OpenAPI document: <a href=\"/openapi.yaml\">/openapi.yaml</a></p>\n"
    ++ "    <p>This MVP intentionally exposes the API first and keeps the browse UI out of scope.</p>\n"
    ++ "  </body>\n" ++ "</html>"
