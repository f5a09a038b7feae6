-- ===== src/Api/Filenames/RoundTrip.antt =====
-- The download URLs that the service hands out are read back by the download handlers.
use Prim.Native.Char.{Char}
use Prim.Native.String.{◌++◌}
use text.Mathlib.TextLemmas.{append_assoc}
use charm_registry.Prelude.{
  ℕ, inl, inr, false, ◌≢◌, String, ◌≡◌, refl, sym, ap, ◌∙◌, some, ◌∷◌, ℤ, arith,
}
use charm_registry.Errors.{ok}
use charm_registry.Config.{Config}
use charm_registry.Text.{contains_char, trim_suffix, split, cut}
use charm_registry.Text.Split.{
  Lacks, middle, split-Lacks, split-append, cut-append, cut_last-append, trim_prefix-append,
  trim_suffix-append, Lacks-append, Lacks-contains_char,
}
use charm_registry.Text.Decimal.{itoa, atoi-itoa, InRange, Lacks-itoa, Lacks-itoa_other, IsOther}
use charm_registry.Service.Helpers.{charm_download_url, resource_download_url}
use charm_registry.Api.Filenames.{
  parse_int, charm_parts, parse_charm_download_filename, resource_part, resource_parts,
  parse_resource_download_filename,
}

-- The last segment of the URL of a charm, which the route's {filename} matches.
abbrev pub charm_filename : String → ℤ → String
charm_filename package_id revision = package_id ++ "_" ++ itoa revision ++ ".charm"

abbrev pub resource_filename : String → String → ℤ → String
resource_filename package_id resource_name revision =
    "charm_" ++ package_id ++ "." ++ resource_name ++ "_" ++ itoa revision

parse_int-itoa : (i : ℤ) → InRange i → parse_int (itoa i) ≡ ok i
unfolding parse_int
parse_int-itoa i h = rw (atoi-itoa i h, parse_int)

-- A separator between two texts.
separated :
    (s : String) (c : Char) (t : String) → s ++ ((String.◌∷◌ c "") ++ t) ≡ s ++ (String.◌∷◌ c t)
separated s c t = sym (append_assoc s (String.◌∷◌ c "") t) ∙ middle s c t

charm_filename_trimmed :
    (package_id number : String)
    → trim_suffix (package_id ++ "_" ++ number ++ ".charm") ".charm"
      ≡ package_id ++ (String.◌∷◌ "_" number)
charm_filename_trimmed p n =
    ap (λ s. trim_suffix s ".charm")
      (ap (λ s. p ++ s) (sym (append_assoc "_" n ".charm"))
        ∙ sym (append_assoc p ("_" ++ n) ".charm"))
    ∙ trim_suffix-append (p ++ "_" ++ n) "charm" "."
    ∙ separated p "_" n

parse_charm_filename :
    (package_id : String) (i : ℤ)
    → Lacks b'_' package_id
    → InRange i
    → parse_charm_download_filename (charm_filename package_id i) ≡ ok (package_id, i)
unfolding parse_charm_download_filename
parse_charm_filename p i h r =
    ap (λ s. charm_parts (split b'_' s)) (charm_filename_trimmed p (itoa i))
    ∙ ap charm_parts (
        split-append b'_' p (itoa i) "_" h refl
        ∙ ap (λ ps. p ∷ ps) (split-Lacks b'_' (itoa i) (Lacks-itoa b'_' i (omega arith))))
    ∙ rw (parse_int-itoa i r, charm_parts)

-- The URL of a charm ends in a file name from which the download handler reads the package ID and
-- the revision that the URL was made for, if the ID has no underscore and the revision is an int64.
pub parse_charm_download_filename-charm_download_url :
    (cfg : Config) (package_id : String) (revision : ℤ)
    → Lacks b'_' package_id
    → InRange revision
    → (charm_download_url cfg package_id revision
        ≡ (cfg.public_api_url ++ "/api/v1/charms/download/") ++ charm_filename package_id revision)
      × (parse_charm_download_filename (charm_filename package_id revision)
          ≡ ok (package_id, revision))
unfolding charm_download_url
parse_charm_download_filename-charm_download_url cfg p i h r = (
  sym (append_assoc cfg.public_api_url "/api/v1/charms/download/" (charm_filename p i)),
  parse_charm_filename p i h r,
)

parse_resource_filename :
    (package_id resource_name : String) (i : ℤ)
    → Lacks b'.' package_id
    → InRange i
    → parse_resource_download_filename (resource_filename package_id resource_name i)
      ≡ ok (package_id, resource_name, i)
unfolding parse_resource_download_filename
parse_resource_filename p n i h r =
    ap (λ s. resource_parts (cut b'.' s))
      (trim_prefix-append "charm_" (p ++ "." ++ n ++ "_" ++ itoa i))
    ∙ ap (λ s. resource_parts (cut b'.' s)) (separated p "." (n ++ "_" ++ itoa i))
    ∙ ap resource_parts (cut-append b'.' p (n ++ "_" ++ itoa i) "." h refl)
    ∙ ap (λ s. resource_parts (some (p, s))) (separated n "_" (itoa i))
    ∙ ap (resource_part p)
        (cut_last-append b'_' n (itoa i) "_" (Lacks-itoa b'_' i (omega arith)) refl)
    ∙ rw (parse_int-itoa i r, resource_part)

-- The text stays in one segment of the path of a URL.
abbrev pub IsSegment : String → Type 0
IsSegment s = Lacks b'/' s × Lacks b'?' s × Lacks b'#' s × Lacks b'%' s

-- A code that stands neither in the fixed parts of the file name nor in a printed int.
resource_filename_without :
    (sep : ℕ) (package_id resource_name : String) (i : ℤ)
    → Lacks sep "charm_"
    → Lacks sep "."
    → Lacks sep "_"
    → Lacks sep (itoa i)
    → Lacks sep package_id
    → Lacks sep resource_name
    → Lacks sep (resource_filename package_id resource_name i)
resource_filename_without sep p n i prefix dot bar digits in_id in_name =
    Lacks-append sep "charm_" _ prefix (
      Lacks-append sep p _ in_id (
        Lacks-append sep "." _ dot
          (Lacks-append sep n _ in_name (Lacks-append sep "_" _ bar digits))))

fixed_parts_without :
    (sep : ℕ) (package_id resource_name : String) (i : ℤ)
    → contains_char sep "charm_" ≡ false
    → contains_char sep "." ≡ false
    → contains_char sep "_" ≡ false
    → IsOther sep
    → b'-' ≢ sep
    → Lacks sep package_id
    → Lacks sep resource_name
    → Lacks sep (resource_filename package_id resource_name i)
fixed_parts_without sep p n i prefix dot bar other minus =
    resource_filename_without sep p n i (Lacks-contains_char sep "charm_" prefix)
      (Lacks-contains_char sep "." dot) (Lacks-contains_char sep "_" bar)
      (Lacks-itoa_other sep i other minus)

resource_filename-IsSegment :
    (package_id resource_name : String) (i : ℤ)
    → IsSegment package_id
    → IsSegment resource_name
    → IsSegment (resource_filename package_id resource_name i)
unfolding contains_char
resource_filename-IsSegment p n i (h0, h1, h2, h3) (k0, k1, k2, k3) = (
  fixed_parts_without b'/' p n i refl refl refl (inr (omega arith)) (λ e. omega arith) h0 k0,
  fixed_parts_without b'?' p n i refl refl refl (inl (omega arith)) (λ e. omega arith) h1 k1,
  fixed_parts_without b'#' p n i refl refl refl (inr (omega arith)) (λ e. omega arith) h2 k2,
  fixed_parts_without b'%' p n i refl refl refl (inr (omega arith)) (λ e. omega arith) h3 k3,
)

-- The URL of a resource is the route's prefix and a file name, and parseResourceDownloadFilename
-- reads from that file name the package ID, the resource's name and the revision that the URL was
-- made for, if the ID has no dot, the revision is an int64, and neither the ID nor the name has one
-- of "/", "?", "#" and "%". The file name has none of these either, so that it is one segment of the
-- path, as the route's {filename} is.
pub parse_resource_download_filename-resource_download_url :
    (cfg : Config) (package_id resource_name : String) (revision : ℤ)
    → Lacks b'.' package_id
    → IsSegment package_id
    → IsSegment resource_name
    → InRange revision
    → (resource_download_url cfg package_id resource_name revision
        ≡ (cfg.public_api_url ++ "/api/v1/resources/download/")
          ++ resource_filename package_id resource_name revision)
      × IsSegment (resource_filename package_id resource_name revision)
      × (parse_resource_download_filename (resource_filename package_id resource_name revision)
          ≡ ok (package_id, resource_name, revision))
unfolding resource_download_url
parse_resource_download_filename-resource_download_url cfg p n i h whole whole_name r = (
  ap (λ s. cfg.public_api_url ++ s)
        (append_assoc "/api/v1/resources/download/" "charm_" (p ++ "." ++ n ++ "_" ++ itoa i))
      ∙ sym
          (append_assoc cfg.public_api_url "/api/v1/resources/download/" (resource_filename p n i)),
  resource_filename-IsSegment p n i whole whole_name,
  parse_resource_filename p n i h r,
)
