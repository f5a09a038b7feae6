-- ===== src/Api/Filenames.antt =====
-- internal/api/http.go: the file names of the download routes.
pub mod RoundTrip
use Prim.Native.String.{◌++◌}
use charm_registry.Prelude.{
  String, Bool, true, false, Option, none, some, List, [], ◌∷◌, ℤ, if◌then◌else◌,
}
use charm_registry.Errors.{Result, ok, err, failure, ◌>>=◌}
use charm_registry.Text.{trim_suffix, trim_prefix, split, cut, cut_last}
use charm_registry.Text.Decimal.{atoi}

-- The error of strconv.Atoi.
abbrev pub atoi_error : Result ℤ
atoi_error = err (failure "strconv.Atoi: parsing failed")

unfoldable pub parse_int : String → Result ℤ
parse_int s = elim (atoi s) [ none ↦ atoi_error | some n ↦ ok n ]

-- The parts of the file name, which have to be two.
unfoldable pub charm_parts : List String → Result (String × ℤ)
charm_parts (package_id ∷ number ∷ []) = do revision ← parse_int number; ok (package_id, revision)
charm_parts _ = err (failure "cannot parse charm download path")

-- parseCharmDownloadFilename
unfoldable pub parse_charm_download_filename : String → Result (String × ℤ)
unfolding charm_parts parse_int atoi
parse_charm_download_filename filename = charm_parts (split b'_' (trim_suffix filename ".charm"))

abbrev pub bad_resource_path : Result (String × String × ℤ)
bad_resource_path = err (failure "cannot parse resource download path")

-- What stands after the dot.
unfoldable pub resource_part : String → Option (String × String) → Result (String × String × ℤ)
resource_part package_id none = bad_resource_path
resource_part package_id (some (resource_name, number)) = do
  revision ← parse_int number
  ok (package_id, resource_name, revision)

unfoldable pub resource_parts : Option (String × String) → Result (String × String × ℤ)
resource_parts none = bad_resource_path
resource_parts (some (package_id, rest)) = resource_part package_id (cut_last b'_' rest)

-- parseResourceDownloadFilename
unfoldable pub parse_resource_download_filename : String → Result (String × String × ℤ)
unfolding resource_parts resource_part parse_int atoi
parse_resource_download_filename filename =
    resource_parts (cut b'.' (trim_prefix filename "charm_"))
