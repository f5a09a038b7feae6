-- ===== src/Text/Split.antt =====
-- Texts without a given character, and what splitting and cutting do to them.
use Prim.Native.Char.{Char, code}
use Prim.Native.String
use Prim.Native.String.{String, [], ◌∷◌}
use text.Mathlib.TextLemmas.{nil-append, cons-append, length-append, length-cons, append_assoc}
use charm_registry.Prelude.{
  ℕ, ◌≡◌, ◌≢◌, refl, true, false, none, some, arith, eq_iff, ap, ◌∙◌, List,
}
use charm_registry.Text.Basic.{
  cut_prefix, trim_prefix, trim_suffix, contains_char, split, cut, cut_last,
}

-- No character of the text has the given code.
abbrev pub Lacks : ℕ → String → Type 0
Lacks sep [] = Unit
Lacks sep (c ∷ s) = (code c ≢ sep) × Lacks sep s

pub Lacks-append :
    (sep : ℕ) (s t : String) → Lacks sep s → Lacks sep t → Lacks sep (String.◌++◌ s t)
Lacks-append sep [] t h k = rw nil-append k
Lacks-append sep (c ∷ s) t h k = rw cons-append (h.0, Lacks-append sep s t h.1 k)

-- A character in the middle, added to either side.
pub middle :
    (s : String) (c : Char) (t : String)
    → String.◌++◌ (String.◌++◌ s (c ∷ [])) t ≡ String.◌++◌ s (c ∷ t)
middle s c t =
    append_assoc s (c ∷ []) t ∙ ap (String.◌++◌ s) (cons-append c [] t ∙ ap (◌∷◌ c) (nil-append t))

pub split-Lacks : (sep : ℕ) (s : String) → Lacks sep s → split sep s ≡ List.◌∷◌ s List.[]
unfolding split
split-Lacks sep [] h = refl
split-Lacks sep (c ∷ s) h = ground (arith, split-Lacks sep s h.1)

-- Splitting before the first occurrence of the separator.
pub split-append :
    (sep : ℕ) (s t : String) (c : Char)
    → Lacks sep s
    → code c ≡ sep
    → split sep (String.◌++◌ s (c ∷ t)) ≡ List.◌∷◌ s (split sep t)
unfolding split
split-append sep [] t c h e = rw nil-append (ground arith)
split-append sep (d ∷ s) t c h e = rw cons-append (ground (arith, split-append sep s t c h.1 e))

pub contains_char-Lacks : (sep : ℕ) (s : String) → Lacks sep s → contains_char sep s ≡ false
unfolding contains_char
contains_char-Lacks sep [] h = refl
contains_char-Lacks sep (c ∷ s) h = ground (arith, contains_char-Lacks sep s h.1)

pub Lacks-contains_char : (sep : ℕ) (s : String) → contains_char sep s ≡ false → Lacks sep s
unfolding contains_char
Lacks-contains_char sep [] h = tt
Lacks-contains_char sep (c ∷ s) h = (ground arith, Lacks-contains_char sep s (ground arith))

pub contains_char-append :
    (sep : ℕ) (s t : String) (c : Char)
    → code c ≡ sep
    → contains_char sep (String.◌++◌ s (c ∷ t)) ≡ true
unfolding contains_char
contains_char-append sep [] t c e = rw nil-append (ground arith)
contains_char-append sep (d ∷ s) t c e =
    rw cons-append (ground (arith, contains_char-append sep s t c e))

pub cut-append :
    (sep : ℕ) (s t : String) (c : Char)
    → Lacks sep s
    → code c ≡ sep
    → cut sep (String.◌++◌ s (c ∷ t)) ≡ some (s, t)
unfolding cut
cut-append sep [] t c h e = rw nil-append (ground arith)
cut-append sep (d ∷ s) t c h e = rw cons-append (ground (arith, cut-append sep s t c h.1 e))

pub cut_last-Lacks : (sep : ℕ) (s : String) → Lacks sep s → cut_last sep s ≡ none
unfolding cut_last
cut_last-Lacks sep [] h = refl
cut_last-Lacks sep (c ∷ s) h = ground (arith, cut_last-Lacks sep s h.1)

pub cut_last-append :
    (sep : ℕ) (s t : String) (c : Char)
    → Lacks sep t
    → code c ≡ sep
    → cut_last sep (String.◌++◌ s (c ∷ t)) ≡ some (s, t)
unfolding cut_last
cut_last-append sep [] t c h e = rw nil-append (ground (arith, cut_last-Lacks sep t h))
cut_last-append sep (d ∷ s) t c h e = rw cons-append (ground (arith, cut_last-append sep s t c h e))

pub cut_prefix-append : (p s : String) → cut_prefix p (String.◌++◌ p s) ≡ some s
unfolding cut_prefix
cut_prefix-append [] s = rw nil-append
cut_prefix-append (c ∷ p) s = rw cons-append (ground (arith, cut_prefix-append p s))

pub trim_prefix-append : (p s : String) → trim_prefix (String.◌++◌ p s) p ≡ s
unfolding trim_prefix
trim_prefix-append p s = rw cut_prefix-append

longer : (c : Char) (s t : String) → (c ∷ String.◌++◌ s t) ≢ t
longer c s t e =
    omega (arith, ap String.count e, length-cons c (String.◌++◌ s t), length-append s t)

-- A suffix that is there is removed.
pub trim_suffix-append : (s t : String) (c : Char) → trim_suffix (String.◌++◌ s (c ∷ t)) (c ∷ t) ≡ s
unfolding trim_suffix
trim_suffix-append [] t c = rw nil-append (ground (arith, eq_iff (c ∷ t) (c ∷ t)))
trim_suffix-append (d ∷ s) t c = rw cons-append (
    ground (
      arith,
      trim_suffix-append s t c,
      longer d s (c ∷ t),
      eq_iff (d ∷ String.◌++◌ s (c ∷ t)) (c ∷ t),
    ))
