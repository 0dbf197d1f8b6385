-- ===== src/Text.antt =====
-- What the crate uses of Rust's `str` and `String`: a text is the list of its code points.
-- These are std functions, which the parsers of response.rs and the client call.
mod Decimal
mod Words
mod Lines
mod Solid
pub use Solid.*
unfoldable pub use Decimal.{decimal, emit, scan, parse_uint}
unfoldable pub use Words.{
  is_white, is_ascii_white, text_eq, contains, cut_at, strip_prefix, trim_start, trim_end_by, trim,
  words_from, split_whitespace,
}
unfoldable pub use Lines.{trim_end_crlf, chomp, strip_cr, lines_from, lines}
pub use Decimal.*
pub use Words.*
pub use Lines.*
