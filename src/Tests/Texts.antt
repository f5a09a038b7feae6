-- ===== src/Tests/Texts.antt =====
-- The theorems on names, links and URLs, at small inputs.
use Prim.Native.String.{◌++◌}
use charm_registry.Prelude.{
  String, ◌≡◌, refl, ◌⊎◌, true, false, List, [], ◌∷◌, pos, All, contains, arith,
}
use charm_registry.Errors.{ok}
use charm_registry.Text.Split.{Lacks-contains_char}
use charm_registry.Prelude.Maps.{Map, lookup}
use charm_registry.Text.{contains_char}
use charm_registry.Service.Helpers.{charm_download_url, resource_download_url}
use charm_registry.Api.Filenames.{parse_charm_download_filename, parse_resource_download_filename}
use charm_registry.Api.Filenames.RoundTrip.{
  charm_filename, resource_filename, parse_charm_download_filename-charm_download_url, IsSegment,
  parse_resource_download_filename-resource_download_url,
}
use charm_registry.Service.Links.{merge_links, links_at}
use charm_registry.Service.Links.Merge.{merge_links_adds}
use charm_registry.Tests.Fixtures.{config}

no_underscore : contains_char b'_' "abc123" ≡ false
unfolding contains_char
no_underscore = refl

no_dot : contains_char b'.' "abc123" ≡ false
unfolding contains_char
no_dot = refl

parse_charm_download_filename-charm_download_url_example :
    (charm_download_url config "abc123" (pos 42)
      ≡ ("http://api" ++ "/api/v1/charms/download/") ++ charm_filename "abc123" (pos 42))
    × (parse_charm_download_filename (charm_filename "abc123" (pos 42)) ≡ ok ("abc123", pos 42))
parse_charm_download_filename-charm_download_url_example =
    parse_charm_download_filename-charm_download_url config "abc123" (pos 42)
      (Lacks-contains_char b'_' "abc123" no_underscore) (omega arith)

segment :
    (s : String)
    → contains_char b'/' s ≡ false
    → contains_char b'?' s ≡ false
    → contains_char b'#' s ≡ false
    → contains_char b'%' s ≡ false
    → IsSegment s
segment s slash query fragment escape = (
  Lacks-contains_char b'/' s slash,
  Lacks-contains_char b'?' s query,
  Lacks-contains_char b'#' s fragment,
  Lacks-contains_char b'%' s escape,
)

parse_resource_download_filename-resource_download_url_example :
    (resource_download_url config "abc123" "my_image" (pos 7)
      ≡ ("http://api" ++ "/api/v1/resources/download/")
        ++ resource_filename "abc123" "my_image" (pos 7))
    × IsSegment (resource_filename "abc123" "my_image" (pos 7))
    × (parse_resource_download_filename (resource_filename "abc123" "my_image" (pos 7))
        ≡ ok ("abc123", "my_image", pos 7))
unfolding contains_char
parse_resource_download_filename-resource_download_url_example =
    parse_resource_download_filename-resource_download_url config "abc123" "my_image" (pos 7)
      (Lacks-contains_char b'.' "abc123" no_dot) (segment "abc123" refl refl refl refl)
      (segment "my_image" refl refl refl refl) (omega arith)

abbrev stable : String
stable = "stable"

abbrev docs : String
docs = "http://docs"

abbrev source : String
source = "http://source"

abbrev no_issues : String
no_issues = ""

abbrev old_links : Map (List String)
old_links = ("docs", "http://old" ∷ []) ∷ []

old_link : contains "http://old" (links_at "docs" old_links) ≡ true
unfolding lookup
old_link = refl

merge_links_adds_example :
    let out = merge_links [] docs no_issues source ("http://web" ∷ []) in
    ((docs ≡ "") ⊎ (contains docs (links_at "docs" out) ≡ true))
    × ((no_issues ≡ "") ⊎ (contains no_issues (links_at "issues" out) ≡ true))
    × ((source ≡ "") ⊎ (contains source (links_at "source" out) ≡ true))
    × All (λ w. contains w (links_at "website" out) ≡ true) ("http://web" ∷ [])
merge_links_adds_example = merge_links_adds [] docs no_issues source ("http://web" ∷ [])
