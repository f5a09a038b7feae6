-- ===== src/Service/Links.antt =====
-- internal/service/helpers.go: mergeLinks and uniqueAppend.
pub mod Merge
use charm_registry.Prelude.{String, List, [], ◌∷◌, ◌++◌, ◌==◌, contains, if◌then◌else◌}
use charm_registry.Prelude.Maps.{Map, lookup, insert}
use charm_registry.Repo.Memory.State.{slice_or_nil}

-- uniqueAppend
unfoldable pub unique_append : List String → String → List String
unique_append values candidate =
    if contains candidate values then values else values ++ candidate ∷ []

-- out[key] = uniqueAppend(out[key], value)
unfoldable pub add_link : String → Map (List String) → String → Map (List String)
unfolding unique_append
add_link key out value = insert key (unique_append (slice_or_nil (lookup key out)) value) out

-- The same, under the test that the value is not empty.
unfoldable pub add_link_if : String → Map (List String) → String → Map (List String)
unfolding add_link
add_link_if key out value = if value == "" then out else add_link key out value

-- The loop over the websites.
unfoldable pub add_websites : Map (List String) → List String → Map (List String)
unfolding add_link
add_websites out [] = out
add_websites out (website ∷ websites) = add_websites (add_link "website" out website) websites

-- mergeLinks: the copy `out` of `existing`, and the additions to it
unfoldable pub merge_links :
    Map (List String) → String → String → String → List String → Map (List String)
unfolding add_link_if add_websites
merge_links existing docs issues source websites =
    add_websites
      (add_link_if "source" (add_link_if "issues" (add_link_if "docs" existing docs) issues) source)
      websites

-- The links under a key.
abbrev pub links_at : String → Map (List String) → List String
links_at key m = slice_or_nil (lookup key m)
