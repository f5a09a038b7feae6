-- ===== src/Api/Identities.antt =====
-- internal/api/http.go: the API and the caller of a request.
use charm_registry.Prelude.{String, not, ◌&&◌, ◌||◌, ◌==◌, Option, none, ℤ, if◌then◌else◌}
use charm_registry.Prelude.Maps.{Map}
use charm_registry.Core.{Identity, StoreToken, Any}
use charm_registry.Errors.{Result, ok, err, Error, new_error, map_error}
use charm_registry.Auth.Tokens.{Claims}
use charm_registry.Auth.Authenticator.{Authenticator, authenticate, authenticate_token}
use charm_registry.Auth.Macaroons.{Codec, extract_token_from_macaroons}
use charm_registry.Service.Context.{Service, World, Action, ◌>>=◌, pure, read, now}
use charm_registry.Service.Tokens.{resolve_identity}
use charm_registry.Api.Requests.{Request, JsonDecoders}
use charm_registry.Api.Responses.{Response, write_error}

-- API, as app.New makes it: the authenticator reads the tokens of the service's repository, and its
-- verifier is the one of the configured provider. `form_file` is the file "binary" of a multipart
-- form of bounded size, by its name and contents, if all of it can be read.
pub record Api : Type 1 where
  pub svc : Service
  pub verifier : Option (String → Result (Map Any))
  pub json : JsonDecoders
  pub codec : Codec
  pub form_file : ℤ → String → Option (String × String)

-- An action whose outcome is a response: what the handler writes for an error, it writes here.
unfoldable pub response_of : Result Response → Response
unfolding write_error
response_of (ok response) = response
response_of (err e) = write_error e

module _ (api : Api) where
  -- The handler of a route: it always answers.
  abbrev pub Handler : Type 0
  Handler = Request → World api.svc → Response × World api.svc

  -- `if err != nil { writeError(w, err); return }`, after each call of a handler
  unfoldable pub answered : Action api.svc Response → World api.svc → Response × World api.svc
  unfolding response_of
  answered m w = let (r, w') = m w in (response_of r, w')

  -- A method of the service that reads both stores.
  unfoldable pub inspect : {A : Type 0} → (World api.svc → Result A) → Action api.svc A
  inspect f w = (f w, w)

  unfoldable pub authenticator : api.svc.repo.State → Authenticator
  authenticator db = record {
    verifier = api.verifier;
    config = api.svc.cfg;
    token_store = λ hash. api.svc.repo.find_store_token_by_hash hash db;
  }

  -- The static message of identity
  unfoldable pub unauthorized : Error
  unauthorized = new_error 401 "unauthorized" "authentication required"

  -- a.auth.Authenticate(r) of identity; the time is read once, whether it is needed or not
  unfoldable pub caller_claims : Request → Action api.svc (Claims × Option StoreToken)
  unfolding now read authenticator unauthorized authenticate
  caller_claims req = now >>= λ t. read (λ db.
      map_error (λ e. unauthorized)
        (authenticate api.svc.runtime (authenticator db) t (req.header "Authorization")))

  -- identity
  unfoldable pub identity_of : Request → Action api.svc Identity
  unfolding caller_claims resolve_identity
  identity_of req = do (claims, token) ← caller_claims req; resolve_identity api.svc claims token

  -- The claims that handleIssueToken resolves for a caller without credentials.
  unfoldable pub auto_claims : Claims
  auto_claims = record {
    subject = "dev-auto";
    username = "developer";
    display_name = "Developer";
    email = "developer@example.invalid";
  }

  -- `if !identity.Authenticated && a.cfg.EnableInsecureDevAuth { … }`
  unfoldable pub or_dev_identity : Identity → Action api.svc Identity
  unfolding pure resolve_identity auto_claims
  or_dev_identity identity =
      if not identity.authenticated && api.svc.cfg.enable_insecure_dev_auth
      then resolve_identity api.svc auto_claims none
      else pure identity

  -- The branch on authErr of handleExchangeToken.
  unfoldable pub if_authentic :
      Identity → Result (Claims × Option StoreToken) → Action api.svc Identity
  unfolding pure resolve_identity
  if_authentic identity (ok (claims, token)) = resolve_identity api.svc claims token
  if_authentic identity (err e) = pure identity

  -- The branch on extractErr.
  unfoldable pub if_extracted : Identity → Result String → Action api.svc Identity
  unfolding pure now if_authentic authenticator authenticate_token
  if_extracted identity (err e) = pure identity
  if_extracted identity (ok raw) = now >>= λ t.
      read (λ db. ok (authenticate_token api.svc.runtime (authenticator db) t raw)) >>= λ found.
      if_authentic identity found

  -- `if !identity.Authenticated { … }` of handleExchangeToken
  unfoldable pub or_macaroon_identity : Identity → Request → Action api.svc Identity
  unfolding pure if_extracted extract_token_from_macaroons
  or_macaroon_identity identity req =
      if identity.authenticated || req.header "Macaroons" == ""
      then pure identity
      else if_extracted identity (extract_token_from_macaroons api.codec (req.header "Macaroons"))
