-- ===== src/Api/Login.antt =====
-- The login of a client: the token that POST /v1/tokens wraps in a macaroon is the one that
-- POST /v1/tokens/exchange acts with when it gets the macaroon back. The stores are those in memory.
use charm_registry.Prelude.{String, true, ◌≡◌, ◌≢◌, some, Option, List, ◌∷◌, ℤ}
use charm_registry.Prelude.Maps.{Map}
use charm_registry.Core.{Account, Identity, StoreToken, Any}
use charm_registry.Config.{Config}
use charm_registry.Errors.{Result}
use charm_registry.Auth.Macaroons.{Codec, wrap_in_macaroon}
use charm_registry.Auth.Macaroons.RoundTrip.{IsFaithful, objects_of}
use charm_registry.Repo.Memory.State.{Memory, Platform}
use charm_registry.Service.Context.{Runtime, Service, read}
use charm_registry.Service.Revisions.Uploads.{in_memory}
use charm_registry.Api.Requests.{Request, JsonDecoders}
use charm_registry.Api.Identities.{Api}

-- The identity that a caller with a known subject gets.
pub record Acts (token : StoreToken) (account : Account) (identity : Identity) : Type 0 where
  pub with_token : identity.token ≡ some token
  pub is_authenticated : identity.authenticated ≡ true
  pub same_account : identity.account.id ≡ account.id

module _ (cfg : Config) (runtime : Runtime) (order : Platform) where
  abbrev s : Service
  s = in_memory cfg runtime order

module _ (cfg : Config) (runtime : Runtime) (order : Platform)
    (verifier : Option (String → Result (Map Any))) (json : JsonDecoders)
    (form_file : ℤ → String → Option (String × String)) (codec : Codec)
    (object : String → Option (Map Any)) (array : List String → String)
    (url_encode raw_url_encode : String → String)
    (laws : IsFaithful codec object array url_encode raw_url_encode) where
  abbrev api : Api
  api = record {
    svc = in_memory cfg runtime order;
    verifier = verifier;
    json = json;
    codec = codec;
    form_file = form_file;
  }

  -- The request by which a client hands the macaroon of a token back, with discharges that are any
  -- JSON objects.
  pub record HandsBack (request : Request) (raw location : String) : Type 0 where
    pub discharges : List String
    pub objects : List (Map Any)
    pub read : objects_of object discharges ≡ some objects
    pub header :
        request.header "Macaroons"
        ≡ url_encode (array (wrap_in_macaroon codec raw location ∷ discharges))
    pub given : request.header "Macaroons" ≢ ""
