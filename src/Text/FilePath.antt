-- ===== src/Text/FilePath.antt =====
-- The functions of path/filepath that the program calls, for a separator of "/".
use Prim.Native.Char.{code}
use Prim.Native.String
use Prim.Native.String.{String, [], ◌∷◌}
use mathlib.Core.List.{reverse}
use charm_registry.Prelude.{
  ℕ, ◌≡◌, refl, Bool, true, false, ◌||◌, Option, none, some, List, ◌==◌, eq_nat, if◌then◌else◌,
}
use charm_registry.Text.Basic.{split, cut_last}

keep_dots : Bool → List String → List String
keep_dots true stack = stack
keep_dots false stack = List.◌∷◌ ".." stack

pop_element : Bool → List String → List String
unfolding keep_dots
pop_element rooted List.[] = keep_dots rooted List.[]
pop_element rooted (List.◌∷◌ top below) =
    if top == ".." then List.◌∷◌ ".." (List.◌∷◌ top below) else below

-- One element of a path that is cleaned; the elements before it are on a stack, the last on top.
push_element : Bool → List String → String → List String
unfolding pop_element
push_element rooted stack part =
    if part == "" || part == "."
    then stack
    else if part == ".."
    then pop_element rooted stack
    else List.◌∷◌ part stack

clean_from : Bool → List String → List String → List String
clean_from rooted stack List.[] = reverse stack
clean_from rooted stack (List.◌∷◌ part parts) =
    clean_from rooted (push_element rooted stack part) parts

-- strings.Join with a separator
unfoldable pub join_with : String → List String → String
join_with sep List.[] = ""
join_with sep (List.◌∷◌ part List.[]) = part
join_with sep (List.◌∷◌ part (List.◌∷◌ next parts)) =
    String.◌++◌ part (String.◌++◌ sep (join_with sep (List.◌∷◌ next parts)))

or_dot : String → String
or_dot [] = "."
or_dot (c ∷ s) = c ∷ s

-- filepath.Clean
unfoldable pub clean : String → String
unfolding clean_from push_element or_dot join_with
clean [] = "."
clean (c ∷ s) =
    if eq_nat (code c) b'/'
    then String.◌++◌ "/" (join_with "/" (clean_from true List.[] (split b'/' s)))
    else or_dot (join_with "/" (clean_from false List.[] (split b'/' (c ∷ s))))

drop_empty : List String → List String
drop_empty List.[] = List.[]
drop_empty (List.◌∷◌ part parts) =
    if part == "" then drop_empty parts else List.◌∷◌ part (drop_empty parts)

clean_unless_empty : String → String
unfolding clean
clean_unless_empty [] = ""
clean_unless_empty (c ∷ s) = clean (c ∷ s)

-- filepath.Join
unfoldable pub join : List String → String
unfolding drop_empty clean_unless_empty join_with
join parts = clean_unless_empty (join_with "/" (drop_empty parts))

after_last : ℕ → String → Option String
after_last sep s = elim (cut_last sep s) [ none ↦ none | some (before, after) ↦ some after ]

base_name : String → String
unfolding after_last
base_name s = elim (after_last b'/' s) [ none ↦ s | some after ↦ after ]

-- filepath.Ext
unfoldable pub ext : String → String
unfolding base_name after_last cut_last
ext s = elim (after_last b'.' (base_name s)) [ none ↦ "" | some after ↦ String.◌++◌ "." after ]

join_example :
    join (List.◌∷◌ "uploads" (List.◌∷◌ "id" (List.◌∷◌ "a/./b.charm" List.[])))
    ≡ "uploads/id/a/b.charm"
unfolding join split
join_example = refl

join_up : join (List.◌∷◌ "uploads" (List.◌∷◌ "id" (List.◌∷◌ "../../x" List.[]))) ≡ "x"
unfolding join split
join_up = refl

ext_example : ext "dir.d/my.app.charm" ≡ ".charm"
unfolding ext
ext_example = refl
