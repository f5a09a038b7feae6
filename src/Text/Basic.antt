-- ===== src/Text/Basic.antt =====
-- Functions of the package strings, over texts as lists of characters, which are Go's runes.
use Prim.Native.Char.{Char, code}
use Prim.Native.String
use Prim.Native.String.{String, [], ◌∷◌}
use charm_registry.Prelude.{
  ℕ, ◌-◌, Bool, true, false, ◌&&◌, ◌||◌, Option, none, some, ◌==◌, eq_nat, leb, is_set,
  if◌then◌else◌, List,
}

-- The rest behind a prefix, where the text begins with it.
unfoldable pub cut_prefix : String → String → Option String
cut_prefix [] s = some s
cut_prefix (p ∷ ps) [] = none
cut_prefix (p ∷ ps) (c ∷ s) =
    let rest = cut_prefix ps s in if eq_nat (code p) (code c) then rest else none

-- strings.HasPrefix
unfoldable pub has_prefix : String → String → Bool
has_prefix s p = is_set (cut_prefix p s)

abbrev rest_or : Option String → String → String
rest_or none s = s
rest_or (some r) s = r

-- strings.TrimPrefix
unfoldable pub trim_prefix : String → String → String
trim_prefix s p = rest_or (cut_prefix p s) s

-- strings.TrimSuffix, for a suffix that is not empty
unfoldable pub trim_suffix : String → String → String
trim_suffix [] suffix = []
trim_suffix (c ∷ s) suffix =
    let rest = trim_suffix s suffix in if (c ∷ s) == suffix then [] else c ∷ rest

-- strings.Contains, for a text of one character, given by its code
unfoldable pub contains_char : ℕ → String → Bool
contains_char sep [] = false
contains_char sep (c ∷ s) = if eq_nat (code c) sep then true else contains_char sep s

abbrev onto_head : Char → List String → List String
onto_head c List.[] = List.◌∷◌ (c ∷ []) List.[]
onto_head c (List.◌∷◌ part parts) = List.◌∷◌ (c ∷ part) parts

-- strings.Split, for a separator of one character: the parts, at least one
unfoldable pub split : ℕ → String → List String
split sep [] = List.◌∷◌ [] List.[]
split sep (c ∷ s) =
    if eq_nat (code c) sep then List.◌∷◌ [] (split sep s) else onto_head c (split sep s)

abbrev in_front : Char → Option (String × String) → Option (String × String)
in_front c none = none
in_front c (some (before, after)) = some (c ∷ before, after)

-- The text around the first occurrence of a character (strings.Index and the two slices)
unfoldable pub cut : ℕ → String → Option (String × String)
cut sep [] = none
cut sep (c ∷ s) = if eq_nat (code c) sep then some ([], s) else in_front c (cut sep s)

abbrev cut_last_at : Bool → Char → String → Option (String × String) → Option (String × String)
cut_last_at here c s (some (before, after)) = some (c ∷ before, after)
cut_last_at true c s none = some ([], s)
cut_last_at false c s none = none

-- The text around the last occurrence of a character (strings.LastIndex and the two slices)
unfoldable pub cut_last : ℕ → String → Option (String × String)
cut_last sep [] = none
cut_last sep (c ∷ s) = cut_last_at (eq_nat (code c) sep) c s (cut_last sep s)

-- unicode.IsSpace: the characters with the property White_Space.
is_space : Char → Bool
is_space c =
    leb 9 (code c) && leb (code c) 13
    || eq_nat (code c) 0x20
    || eq_nat (code c) 0x85
    || eq_nat (code c) 0xA0
    || eq_nat (code c) 0x1680
    || leb 0x2000 (code c) && leb (code c) 0x200A
    || eq_nat (code c) 0x2028
    || eq_nat (code c) 0x2029
    || eq_nat (code c) 0x202F
    || eq_nat (code c) 0x205F
    || eq_nat (code c) 0x3000

unfoldable pub trim_left : String → String
unfolding is_space
trim_left [] = []
trim_left (c ∷ s) = if is_space c then trim_left s else c ∷ s

abbrev unless_space : Char → String → String
unless_space c [] = if is_space c then [] else c ∷ []
unless_space c (d ∷ s) = c ∷ d ∷ s

unfoldable pub trim_right : String → String
unfolding is_space
trim_right [] = []
trim_right (c ∷ s) = unless_space c (trim_right s)

-- strings.TrimSpace
unfoldable pub trim_space : String → String
unfolding trim_left trim_right
trim_space s = trim_right (trim_left s)

-- unicode.ToLower; beyond ASCII it reads the tables of Unicode that come with Go, here `others`
unfoldable pub lower_char : (Char → Char) → Char → Char
lower_char others c =
    if leb b'A' (code c) && leb (code c) b'Z'
    then String.char_at "abcdefghijklmnopqrstuvwxyz" (code c - b'A')
    else if leb (code c) 127
    then c
    else others c

-- strings.ToLower
unfoldable pub to_lower : (Char → Char) → String → String
unfolding lower_char
to_lower others [] = []
to_lower others (c ∷ s) = lower_char others c ∷ to_lower others s

-- The ASCII character, in lower case, that a character folds to under the simple folding of Unicode,
-- or the character: U+212A, the sign of Kelvin, folds to k, and U+017F, the long s, to s.
unfoldable pub fold_char : Char → Char
fold_char c =
    if leb b'A' (code c) && leb (code c) b'Z'
    then String.char_at "abcdefghijklmnopqrstuvwxyz" (code c - b'A')
    else if eq_nat (code c) 0x212A
    then String.char_at "k" 0
    else if eq_nat (code c) 0x017F
    then String.char_at "s" 0
    else c

unfoldable pub fold : String → String
unfolding fold_char
fold [] = []
fold (c ∷ s) = fold_char c ∷ fold s

-- strings.EqualFold, where one of the two texts is ASCII: no other characters fold to one of ASCII
unfoldable pub equal_fold : String → String → Bool
unfolding fold
equal_fold s t = fold s == fold t

-- strings.Contains
unfoldable pub contains_text : String → String → Bool
unfolding has_prefix
contains_text [] p = has_prefix [] p
contains_text (c ∷ s) p = if has_prefix (c ∷ s) p then true else contains_text s p

-- strings.ReplaceAll, for texts of one character, given by their codes and the new character
unfoldable pub replace_char : ℕ → Char → String → String
replace_char old new [] = []
replace_char old new (c ∷ s) = (if eq_nat (code c) old then new else c) ∷ replace_char old new s

-- strings.ReplaceAll of a character, given by its code, by the empty text
unfoldable pub remove_char : ℕ → String → String
remove_char old [] = []
remove_char old (c ∷ s) =
    let rest = remove_char old s in if eq_nat (code c) old then rest else c ∷ rest
