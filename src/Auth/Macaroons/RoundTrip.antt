-- ===== src/Auth/Macaroons/RoundTrip.antt =====
-- What a client makes of a macaroon of WrapInMacaroon leads back to the token.
use Prim.Native.Char.{code}
use charm_registry.Prelude.{
  String, ◌≤◌, ◌≡◌, ◌≢◌, refl, ◌⊎◌, inl, inr, Option, none, some, List, [], ◌∷◌, arith, eq_iff,
}
use charm_registry.Prelude.Maps.{Map, lookup}
use charm_registry.Core.{Any, text, items}
use charm_registry.Errors.{ok, err, Error}
use charm_registry.Auth.Macaroons.{
  Macaroon, Codec, wrap_in_macaroon, token_macaroon, extract_token_from_macaroons, decode_header,
  first_identifier, identifier_of,
}

-- The object that a macaroon is in JSON, by the tags of its fields.
abbrev pub members : Macaroon → Map Any
members m =
    ("identifier", text m.identifier)
    ∷ ("location", text m.location)
    ∷ ("signature", text m.signature)
    ∷ ("caveats", items [])
    ∷ []

-- Every character of the text is ASCII: encoding/json replaces what is not valid UTF-8, and leaves
-- such a text alone.
abbrev pub IsAscii : String → Type 0
IsAscii String.[] = Unit
IsAscii (String.◌∷◌ c s) = (code c ≤ 127) × IsAscii s

abbrev in_front : Option (Map Any) → Option (List (Map Any)) → Option (List (Map Any))
in_front none rest = none
in_front (some o) none = none
in_front (some o) (some rest) = some (o ∷ rest)

-- The objects of texts, where each is the text of one.
abbrev pub objects_of : (String → Option (Map Any)) → List String → Option (List (Map Any))
objects_of object [] = some []
objects_of object (s ∷ texts) = in_front (object s) (objects_of object texts)

-- What is documented of the encodings. `object` reads the text of one JSON object: json.Marshal of a
-- macaroon of ASCII texts is the text of its object, and a JSON array of the texts of objects reads
-- as these objects. The hexadecimal HMAC is ASCII. Each alphabet of base64 decodes what it encodes,
-- and the padded one refuses what the other one encodes or reads it as the same bytes.
pub record IsFaithful (codec : Codec) (object : String → Option (Map Any))
    (array : List String → String) (url_encode raw_url_encode : String → String) : Type 0 where
  pub marshalled :
      (m : Macaroon)
      → IsAscii m.identifier
      → IsAscii m.location
      → IsAscii m.signature
      → object (codec.marshal m) ≡ some (members m)
  pub arrays :
      (texts : List String) (objects : List (Map Any))
      → objects_of object texts ≡ some objects
      → codec.unmarshal (array texts) ≡ ok objects
  pub hexadecimal : (key message : String) → IsAscii (codec.hmac_sha256 key message)
  pub padded : (s : String) → codec.url_decode (url_encode s) ≡ ok s
  pub unpadded : (s : String) → codec.raw_url_decode (raw_url_encode s) ≡ ok s
  pub apart :
      (s : String)
      → (codec.url_decode (raw_url_encode s) ≡ ok s)
        ⊎ ((e : Error) × (codec.url_decode (raw_url_encode s) ≡ err e))

module _ (codec : Codec) (object : String → Option (Map Any)) (array : List String → String)
    (url_encode raw_url_encode : String → String)
    (laws : IsFaithful codec object array url_encode raw_url_encode) where
  -- The array of a client: the macaroon of a token and the texts of its discharges.
  abbrev pub bundle : String → String → List String → String
  bundle raw location discharges = array (wrap_in_macaroon codec raw location ∷ discharges)

  unmarshal-bundle :
      (raw location : String) (discharges : List String) (objects : List (Map Any))
      → IsAscii raw
      → IsAscii location
      → objects_of object discharges ≡ some objects
      → codec.unmarshal (bundle raw location discharges)
        ≡ ok (members (token_macaroon codec raw location) ∷ objects)
  unfolding wrap_in_macaroon
  unmarshal-bundle raw location discharges objects plain plain_location read =
      let own =
        laws.marshalled (token_macaroon codec raw location) plain plain_location
          (laws.hexadecimal (codec.sum256 raw) raw) in
      laws.arrays _ _ (rw (own, read) refl)

  read_of :
      (raw location header : String) (discharges : List String) (objects : List (Map Any))
      → raw ≢ ""
      → IsAscii raw
      → IsAscii location
      → objects_of object discharges ≡ some objects
      → decode_header codec header ≡ ok (bundle raw location discharges)
      → extract_token_from_macaroons codec header ≡ ok raw
  unfolding extract_token_from_macaroons first_identifier identifier_of lookup
  read_of raw location header discharges objects some_raw plain plain_location read decoded =
      ground (
        arith,
        unmarshal-bundle raw location discharges objects plain plain_location read,
        eq_iff raw "",
      )

  decode_unpadded : (s : String) → decode_header codec (raw_url_encode s) ≡ ok s
  unfolding decode_header
  decode_unpadded s = elim (laws.apart s) [
    | inl same ↦ ground arith
    | inr (e, refused) ↦ ground (arith, laws.unpadded s)
  ]

  decode_padded : (s : String) → decode_header codec (url_encode s) ≡ ok s
  unfolding decode_header
  decode_padded s = ground (arith, laws.padded s)

  -- The Macaroons header of a client that bundles the macaroon of a token with discharges, which may
  -- be any JSON objects, leads back to that token, with the padding of base64 and without, if the
  -- token is not empty and the token and the location are ASCII.
  pub extract_token_from_macaroons-wrap_in_macaroon :
      (raw location : String) (discharges : List String) (objects : List (Map Any))
      → raw ≢ ""
      → IsAscii raw
      → IsAscii location
      → objects_of object discharges ≡ some objects
      → (extract_token_from_macaroons codec (url_encode (bundle raw location discharges)) ≡ ok raw)
        × (extract_token_from_macaroons codec (raw_url_encode (bundle raw location discharges))
            ≡ ok raw)
  extract_token_from_macaroons-wrap_in_macaroon raw location discharges objects some_raw plain
        plain_location read =
      (
        read_of raw location _ discharges objects some_raw plain plain_location read
            (decode_padded _),
        read_of raw location _ discharges objects some_raw plain plain_location read
            (decode_unpadded _),
      )
