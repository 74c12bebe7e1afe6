-- ===== src/Strings.antt =====
-- What the program uses of Go's `strings`, on byte sequences.
mod Trim
mod Split
pub use Trim.*
unfoldable pub use Trim.{is_space, trim_left, trim_right, trim_space, trim_right_of}
pub use Split.*
unfoldable pub use Split.{
  lines_from, lines, has_prefix, trim_prefix, trim_suffix, has_suffix, contains_byte, split, cut,
  contains_any,
}
