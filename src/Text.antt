-- ===== src/Text.antt =====
-- Rust's `str` as the list of its Unicode scalar values, and the methods of `str` and `char` that
-- the crates call: tests, case, trimming, prefixes, splitting and joining.
mod Chars
mod Trim
mod Split
unfoldable pub use Chars.*
unfoldable pub use Trim.*
unfoldable pub use Split.*
