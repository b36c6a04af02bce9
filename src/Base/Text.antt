-- ===== src/Base/Text.antt =====
-- What the program uses of Go's packages `strings`, `fmt` and `path/filepath`. A text is a list of
-- characters.
mod Find
mod Split
mod Decimal
mod Paths
mod Trim
mod Equality
mod Lower
unfoldable pub use Find.{begins, contains}
unfoldable pub use Split.{split, size, Lacks}
pub use Split.{begins-append, split-append, split_whole}
unfoldable pub use Decimal.{decimal}
unfoldable pub use Paths.{join_path}
unfoldable pub use Trim.{trim_newlines}
pub use Equality.{eq-false_of_ne}
unfoldable pub use Lower.{to_lower}
