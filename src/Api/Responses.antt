-- ===== src/Api/Responses.antt =====
-- internal/api/http.go: responses and errors.
use Prim.Native.String.{◌++◌}
use charm_registry.Prelude.{ℕ, String, [], ◌∷◌}
use charm_registry.Prelude.Maps.{Map, insert}
use charm_registry.Errors.{Error, service, not_found, conflict, failure, new_error}
use charm_registry.Service.Resources.{Credentials}
use charm_registry.Service.Revisions.{error_text}
use charm_registry.Api.Documents.{Document, error_list}

-- A document, the bytes of a file, or the text that OCIImageBlob makes of credentials and a digest.
pub data Body : Type 0 where
  document : Document → Body
  bytes : String → Body
  oci_blob : Credentials × String → Body

-- What a handler writes: the status, the headers that it sets and the body.
pub record Response : Type 0 where
  pub status : ℕ
  pub headers : Map String
  pub body : Body

-- w.Header().Set, for each pair
unfoldable pub set_all : Map String → Map String → Map String
set_all [] headers = headers
set_all ((name, value) ∷ more) headers = set_all more (insert name value headers)

-- writeJSON
unfoldable pub write_json : ℕ → Document → Response
write_json status payload = record {
  status = status;
  headers = ("Content-Type", "application/json; charset=utf-8") ∷ [];
  body = document payload;
}

-- A file to be saved, as the download handlers write it.
unfoldable pub write_attachment : String → String → Body → Response
write_attachment filename content_type body = record {
  status = 200;
  headers =
      ("Content-Disposition", "attachment; filename=\"" ++ filename ++ "\"")
      ∷ ("Content-Type", content_type)
      ∷ [];
  body = body;
}

-- A text of the program, as handleOpenAPI and handleDocs write it.
unfoldable pub write_text : String → String → Response
write_text content_type contents = record {
  status = 200;
  headers = ("Content-Type", content_type) ∷ [];
  body = bytes contents;
}

-- writeError
unfoldable pub write_error : Error → Response
unfolding write_json
write_error (service e) = write_json e.status (error_list e.code e.message)
write_error not_found = write_json 404 (error_list "not-found" "resource not found")
write_error conflict = write_json 500 (error_list "internal-error" "internal server error")
write_error (failure text) = write_json 500 (error_list "internal-error" "internal server error")

-- invalidRequestError
unfoldable pub invalid_request_error : Error → Error
unfolding error_text
invalid_request_error (service e) = service e
invalid_request_error not_found = new_error 400 "invalid-request" (error_text not_found)
invalid_request_error conflict = new_error 400 "invalid-request" (error_text conflict)
invalid_request_error (failure text) = new_error 400 "invalid-request" text

-- securityHeaders, which runs before the handler
unfoldable pub security_headers : Map String
security_headers =
    (
      "Content-Security-Policy",
      "default-src 'none'; frame-ancestors 'none'; base-uri 'none'; form-action 'none'",
    )
    ∷ ("Referrer-Policy", "no-referrer")
    ∷ ("X-Content-Type-Options", "nosniff")
    ∷ ("X-Frame-Options", "DENY")
    ∷ []

-- The headers of the handler are set after those.
unfoldable pub secured : Response → Response
unfolding set_all security_headers
secured response = record response { headers = set_all response.headers security_headers }
