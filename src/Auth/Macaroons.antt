-- ===== src/Auth/Macaroons.antt =====
-- internal/auth/macaroon.go: the macaroon that carries a store token through the login of a client.
-- encoding/json, encoding/base64 and the hashes are not code of the repository.
pub mod RoundTrip
use Prim.Native.String.{◌++◌}
use charm_registry.Prelude.{
  String, Bool, true, false, ◌≡◌, ◌≢◌, Option, none, some, List, [], ◌∷◌, map, ◌==◌, if◌then◌else◌,
  eq_iff, refl, arith,
}
use charm_registry.Prelude.Maps.{Map, lookup}
use charm_registry.Core.{Any, text, items, texts, other}
use charm_registry.Errors.{Result, ok, err, failure, Error, map_error, ◌>>=◌}
use charm_registry.Service.Revisions.{error_text}

-- The struct of WrapInMacaroon; there are no caveats.
pub record Macaroon : Type 0 where
  pub identifier : String
  pub location : String
  pub signature : String

-- What macaroon.go calls: json.Marshal of a macaroon and json.Unmarshal of an array of objects,
-- the two alphabets of base64, sha256.Sum256 and the hexadecimal HMAC-SHA256 of a message.
pub record Codec : Type 0 where
  pub marshal : Macaroon → String
  pub unmarshal : String → Result (List (Map Any))
  pub url_decode : String → Result String
  pub raw_url_decode : String → Result String
  pub sum256 : String → String
  pub hmac_sha256 : String → String → String

-- The macaroon of a token; the hash of the token is the key that signs it.
abbrev pub token_macaroon : Codec → String → String → Macaroon
token_macaroon codec raw location = record {
  identifier = raw;
  location = location;
  signature = codec.hmac_sha256 (codec.sum256 raw) raw;
}

-- WrapInMacaroon
unfoldable pub wrap_in_macaroon : Codec → String → String → String
wrap_in_macaroon codec raw location = codec.marshal (token_macaroon codec raw location)

-- fmt.Errorf with %w
unfoldable pub wrapped : String → Error → Error
wrapped context e = failure (context ++ error_text e)

-- The bytes of the header: base64 with padding, or without.
unfoldable pub decode_header : Codec → String → Result String
unfolding wrapped
decode_header codec header = elim (codec.url_decode header) [
  | ok decoded ↦ ok decoded
  | err e ↦ map_error (wrapped "cannot decode Macaroons header: ") (codec.raw_url_decode header)
]

abbrev no_identifier : Result String
no_identifier = err (failure "macaroon missing identifier field")

-- `macaroons[0]["identifier"].(string)`, which has to be there and not empty.
unfoldable pub identifier_of : Option Any → Result String
identifier_of (some (text identifier)) = if identifier == "" then no_identifier else ok identifier
identifier_of (some (items values)) = no_identifier
identifier_of (some (texts values)) = no_identifier
identifier_of (some other) = no_identifier
identifier_of none = no_identifier

unfoldable pub first_identifier : List (Map Any) → Result String
unfolding identifier_of
first_identifier [] = err (failure "empty macaroon array in Macaroons header")
first_identifier (macaroon ∷ macaroons) = identifier_of (lookup "identifier" macaroon)

-- ExtractTokenFromMacaroons
unfoldable pub extract_token_from_macaroons : Codec → String → Result String
unfolding decode_header first_identifier
extract_token_from_macaroons codec header = do
  decoded ← decode_header codec header
  macaroons ← map_error (wrapped "cannot parse macaroon JSON array: ") (codec.unmarshal decoded)
  first_identifier macaroons
