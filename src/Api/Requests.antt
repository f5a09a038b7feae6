-- ===== src/Api/Requests.antt =====
-- internal/api: what a handler reads of a request. encoding/json, mime/multipart and the router's
-- parameters are not code of the repository.
use Prim.Native.String.{◌++◌}
use charm_registry.Prelude.{String, Bool, true, false, Option, List, ℤ}
use charm_registry.Core.{Track, ReleaseResourceRef}
use charm_registry.Config.{Config}
use charm_registry.Errors.{Result, ok, err, failure, new_error, map_error}
use charm_registry.Text.Decimal.{itoa}
use charm_registry.Service.Tokens.{IssueTokenRequest}
use charm_registry.Service.Packages.{MetadataPatch}
use charm_registry.Service.Resources.{PushResourceRequest, ResourceRevisionUpdate}
use charm_registry.Service.Refresh.{RefreshAction}
use charm_registry.Api.Responses.{invalid_request_error}

-- A header or a parameter that is missing reads as the empty text, as Header.Get, URLParam and
-- Query().Get have it.
pub record Request : Type 0 where
  pub header : String → String
  pub url_param : String → String
  pub query : String → String
  pub body : String

-- The outcome of json.Decoder on a body that MaxBytesReader bounds: the value of the first document,
-- and whether nothing follows it; a *http.MaxBytesError; io.EOF; or another error.
pub data Decoding {ℓ} (A : Type ℓ) : Type ℓ where
  decoded : A → Bool → Decoding A
  too_large : Decoding A
  at_end : Decoding A
  malformed : String → Decoding A

-- The body of handleRegisterPackage.
pub record RegisterRequest : Type 0 where
  pub name : String
  pub private : Option Bool
  pub type : String

-- An element of the body of handleRelease.
pub record ReleaseItem : Type 0 where
  pub channel : String
  pub revision : ℤ
  pub resources : List ReleaseResourceRef

-- The decoders of the bodies, which get the bound on the body first. They refuse unknown fields.
pub record JsonDecoders : Type 0 where
  pub register : ℤ → String → Decoding RegisterRequest
  pub patch : ℤ → String → Decoding MetadataPatch
  pub releases : ℤ → String → Decoding (List ReleaseItem)
  pub tracks : ℤ → String → Decoding (List Track)
  pub refresh_actions : ℤ → String → Decoding (List RefreshAction)
  pub upload_id : ℤ → String → Decoding String
  pub resource : ℤ → String → Decoding PushResourceRequest
  pub resource_updates : ℤ → String → Decoding (List ResourceRevisionUpdate)
  pub image_digest : ℤ → String → Decoding String
  pub issue : ℤ → String → Decoding IssueTokenRequest
  pub client_description : ℤ → String → Decoding (Option String)
  pub session_id : ℤ → String → Decoding String

-- decodeJSON
unfoldable pub decode_json {ℓ} : {A : Type ℓ} → Config → Decoding A → Result A
unfolding itoa
decode_json cfg (decoded value true) = ok value
decode_json cfg (decoded value false) =
    err (failure "cannot decode request: body must contain a single JSON document")
decode_json cfg too_large = err (
    new_error 413 "request-too-large"
      ("request body exceeds " ++ itoa cfg.max_json_body_bytes ++ " bytes"))
decode_json cfg at_end = err (failure "EOF")
decode_json cfg (malformed message) = err (failure message)

-- The body of a request, with the error that the handlers write.
unfoldable pub body_of {ℓ} : {A : Type ℓ} → Config → (ℤ → String → Decoding A) → Request → Result A
unfolding decode_json invalid_request_error
body_of cfg decode req =
    map_error invalid_request_error (decode_json cfg (decode cfg.max_json_body_bytes req.body))

-- `err != nil && !errors.Is(err, io.EOF)`: at the end of the input the target keeps its zero value.
unfoldable pub or_at_end {ℓ} : {A : Type ℓ} → A → Decoding A → Decoding A
or_at_end zero_value (decoded value alone) = decoded value alone
or_at_end zero_value too_large = too_large
or_at_end zero_value at_end = decoded zero_value true
or_at_end zero_value (malformed message) = malformed message
