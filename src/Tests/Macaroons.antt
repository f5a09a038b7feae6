-- ===== src/Tests/Macaroons.antt =====
-- The theorem on macaroons, for encodings that are simple enough to write down.
use Prim.Native.Char.{Char, code}
use Prim.Native.String.{String, [], ◌∷◌, ◌++◌}
use mathlib.Core.List.{List}
use package.text.Mathlib.TextLemmas.{nil-append, cons-append}
use charm_registry.Prelude.{
  ◌≡◌, refl, ap, ◌∙◌, inr, arith, Option, none, some, eq_nat, if◌then◌else◌,
}
use charm_registry.Prelude.Maps.{Map}
use charm_registry.Core.{Any, text}
use charm_registry.Errors.{Result, ok, err, failure}
use charm_registry.Auth.Macaroons.{Macaroon, Codec, wrap_in_macaroon, extract_token_from_macaroons}
use charm_registry.Auth.Macaroons.RoundTrip.{
  IsAscii, objects_of, members, IsFaithful, extract_token_from_macaroons-wrap_in_macaroon,
}

abbrev pub letter_c : Char
letter_c = Prim.Native.String.char_at "c" 0

abbrev pub letter_e : Char
letter_e = Prim.Native.String.char_at "e" 0

abbrev pub letter_p : Char
letter_p = Prim.Native.String.char_at "p" 0

abbrev pub letter_r : Char
letter_r = Prim.Native.String.char_at "r" 0

-- A text with a c before each character and an e at its end.
abbrev pub enc : String → String
enc [] = letter_e ∷ []
enc (c ∷ s) = letter_c ∷ c ∷ enc s

abbrev push : Char → List String → List String
push c List.[] = List.[]
push c (List.◌∷◌ s fields) = List.◌∷◌ (c ∷ s) fields

-- The texts that were written one after the other.
unfoldable pub fields : String → List String
fields [] = List.[]
fields (m ∷ []) = List.◌∷◌ "" List.[]
fields (m ∷ c ∷ s) =
    let one = fields (c ∷ s) in
    let two = fields s in if eq_nat (code m) b'e' then List.◌∷◌ "" one else push c two

fields-end : (t : String) → fields (letter_e ∷ t) ≡ List.◌∷◌ "" (fields t)
unfolding fields
fields-end [] = refl
fields-end (c ∷ s) = refl

fields-enc : (s t : String) → fields (enc s ++ t) ≡ List.◌∷◌ s (fields t)
unfolding fields
fields-enc [] t = rw (cons-append, nil-append) (fields-end t)
fields-enc (c ∷ s) t = rw (cons-append, cons-append) (ap (push c) (fields-enc s t))

abbrev object_of : List String → Option (Map Any)
object_of List.[] = none
object_of (List.◌∷◌ a List.[]) = none
object_of (List.◌∷◌ a (List.◌∷◌ b List.[])) = none
object_of (List.◌∷◌ a (List.◌∷◌ b (List.◌∷◌ c rest))) =
    some (members (record { identifier = a; location = b; signature = c }))

abbrev read_objects : Option (List (Map Any)) → Result (List (Map Any))
read_objects none = err (failure "no objects")
read_objects (some objects) = ok objects

-- The object of three texts.
unfoldable pub object : String → Option (Map Any)
unfolding fields
object s = object_of (fields s)

abbrev pub marshal : Macaroon → String
marshal m = enc m.identifier ++ (enc m.location ++ (enc m.signature ++ ""))

abbrev pub array : List String → String
array List.[] = ""
array (List.◌∷◌ s texts) = enc s ++ array texts

-- One letter in front tells the two alphabets apart.
abbrev decode : Char → String → Result String
decode letter [] = err (failure "no letter")
decode letter (c ∷ s) =
    if eq_nat (code c) (code letter) then ok s else err (failure "the other letter")

abbrev pub codec : Codec
codec = record {
  marshal = marshal;
  unmarshal = λ s. read_objects (objects_of object (fields s));
  url_decode = decode letter_p;
  raw_url_decode = decode letter_r;
  sum256 = λ s. "sum of " ++ s;
  hmac_sha256 = λ key message. "5a";
}

fields-empty : fields "" ≡ List.[]
unfolding fields
fields-empty = refl

three_fields :
    (a b c : String)
    → fields (enc a ++ (enc b ++ (enc c ++ ""))) ≡ List.◌∷◌ a (List.◌∷◌ b (List.◌∷◌ c List.[]))
three_fields a b c =
    fields-enc a (enc b ++ (enc c ++ ""))
    ∙ ap (List.◌∷◌ a) (
        fields-enc b (enc c ++ "")
        ∙ ap (List.◌∷◌ b) (fields-enc c "" ∙ ap (List.◌∷◌ c) fields-empty))

object-marshal : (m : Macaroon) → object (marshal m) ≡ some (members m)
unfolding object
object-marshal m = ap object_of (three_fields m.identifier m.location m.signature)

fields-array : (texts : List String) → fields (array texts) ≡ texts
unfolding fields
fields-array List.[] = refl
fields-array (List.◌∷◌ s texts) = fields-enc s (array texts) ∙ ap (List.◌∷◌ s) (fields-array texts)

pub laws : IsFaithful codec object array (λ s. letter_p ∷ s) (λ s. letter_r ∷ s)
laws = record {
  marshalled = λ m a b c. object-marshal m;
  arrays = λ texts objects read. rw (fields-array texts, read) refl;
  hexadecimal = λ key message. (omega arith, (omega arith, tt));
  padded = λ s. refl;
  unpadded = λ s. refl;
  apart = λ s. inr (failure "the other letter", refl);
}

-- A discharge of another server.
abbrev discharges : List String
discharges = List.◌∷◌ (enc "a" ++ (enc "b" ++ enc "c")) List.[]

abbrev discharge : Map Any
discharge = members (record { identifier = "a"; location = "b"; signature = "c" })

pub cr_seed_IsAscii : IsAscii "cr_seed"
cr_seed_IsAscii = (
  omega arith,
  (omega arith, (omega arith, (omega arith, (omega arith, (omega arith, (omega arith, tt)))))),
)

pub api_IsAscii : IsAscii "api"
api_IsAscii = (omega arith, (omega arith, (omega arith, tt)))

discharges_read : objects_of object discharges ≡ some (List.◌∷◌ discharge List.[])
unfolding object fields
discharges_read = refl

bundled : String
bundled = array (List.◌∷◌ (wrap_in_macaroon codec "cr_seed" "api") discharges)

extract_token_from_macaroons-wrap_in_macaroon_example :
    (extract_token_from_macaroons codec (letter_p ∷ bundled) ≡ ok "cr_seed")
    × (extract_token_from_macaroons codec (letter_r ∷ bundled) ≡ ok "cr_seed")
unfolding bundled
extract_token_from_macaroons-wrap_in_macaroon_example =
    extract_token_from_macaroons-wrap_in_macaroon codec object array (λ s. letter_p ∷ s)
      (λ s. letter_r ∷ s) laws "cr_seed" "api" discharges (List.◌∷◌ discharge List.[]) (λ same. cc)
      cr_seed_IsAscii api_IsAscii discharges_read
