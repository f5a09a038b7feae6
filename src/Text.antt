-- ===== src/Text.antt =====
-- The functions of Go's packages strings and strconv that the program calls.
mod Basic
pub mod Split
pub mod Trim
pub mod Decimal
pub mod FilePath
unfoldable pub use Basic.{
  cut_prefix, has_prefix, trim_prefix, trim_suffix, contains_char, split, cut, cut_last, trim_space,
  to_lower, equal_fold, contains_text, replace_char, remove_char,
}
