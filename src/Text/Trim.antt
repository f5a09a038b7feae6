-- ===== src/Text/Trim.antt =====
-- The functions of Go's package strings that remove a character at the ends of a text.
use Prim.Native.Char.{Char, code}
use Prim.Native.String.{String, [], ◌∷◌}
use charm_registry.Prelude.{
  ℕ, ◌≡◌, refl, Bool, false, eq_nat, if◌then◌else◌, arith, Bool-cases, inl, inr,
}

-- strings.TrimLeft(s, c)
unfoldable pub trim_left_char : ℕ → String → String
trim_left_char sep [] = []
trim_left_char sep (c ∷ s) = if eq_nat (code c) sep then trim_left_char sep s else c ∷ s

abbrev unless_char : ℕ → Char → String → String
unless_char sep c [] = if eq_nat (code c) sep then [] else c ∷ []
unless_char sep c (d ∷ s) = c ∷ d ∷ s

-- strings.TrimRight(s, c)
unfoldable pub trim_right_char : ℕ → String → String
trim_right_char sep [] = []
trim_right_char sep (c ∷ s) = unless_char sep c (trim_right_char sep s)

-- strings.Trim(s, c)
unfoldable pub trim_char : ℕ → String → String
unfolding trim_left_char trim_right_char
trim_char sep s = trim_right_char sep (trim_left_char sep s)

-- The last character of the text has the given code.
unfoldable pub ends_with : ℕ → String → Bool
ends_with sep [] = false
ends_with sep (c ∷ []) = eq_nat (code c) sep
ends_with sep (c ∷ d ∷ s) = ends_with sep (d ∷ s)

-- The first character of the text has the given code.
unfoldable pub starts_with : ℕ → String → Bool
starts_with sep [] = false
starts_with sep (c ∷ s) = eq_nat (code c) sep

ends_with-unless_char :
    (sep : ℕ) (c : Char) (s : String)
    → ends_with sep s ≡ false
    → ends_with sep (unless_char sep c s) ≡ false
unfolding ends_with
ends_with-unless_char sep c [] h = elim (Bool-cases (eq_nat (code c) sep)) [
  | inl same ↦ rw same refl
  | inr different ↦ rw different different
]
ends_with-unless_char sep c (d ∷ s) h = h

pub ends_with-trim_right_char :
    (sep : ℕ) (s : String) → ends_with sep (trim_right_char sep s) ≡ false
unfolding ends_with trim_right_char
ends_with-trim_right_char sep [] = refl
ends_with-trim_right_char sep (c ∷ s) =
    ends_with-unless_char sep c (trim_right_char sep s) (ends_with-trim_right_char sep s)

starts_with-trim_left_char : (sep : ℕ) (s : String) → starts_with sep (trim_left_char sep s) ≡ false
unfolding starts_with trim_left_char
starts_with-trim_left_char sep [] = refl
starts_with-trim_left_char sep (c ∷ s) = ground (arith, starts_with-trim_left_char sep s)

starts_with-unless_char :
    (sep : ℕ) (c : Char) (s : String)
    → eq_nat (code c) sep ≡ false
    → starts_with sep (unless_char sep c s) ≡ false
unfolding starts_with
starts_with-unless_char sep c [] h = ground arith
starts_with-unless_char sep c (d ∷ s) h = h

starts_with-trim_right_char :
    (sep : ℕ) (s : String)
    → starts_with sep s ≡ false
    → starts_with sep (trim_right_char sep s) ≡ false
unfolding starts_with trim_right_char
starts_with-trim_right_char sep [] h = refl
starts_with-trim_right_char sep (c ∷ s) h = starts_with-unless_char sep c (trim_right_char sep s) h

pub starts_with-trim_char : (sep : ℕ) (s : String) → starts_with sep (trim_char sep s) ≡ false
unfolding trim_char
starts_with-trim_char sep s =
    starts_with-trim_right_char sep (trim_left_char sep s) (starts_with-trim_left_char sep s)

pub ends_with-trim_char : (sep : ℕ) (s : String) → ends_with sep (trim_char sep s) ≡ false
unfolding trim_char
ends_with-trim_char sep s = ends_with-trim_right_char sep (trim_left_char sep s)
