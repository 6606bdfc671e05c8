-- ===== src/Js.antt =====
-- What the components use of JavaScript: texts, the patterns that the source tests them by, and
-- the values that a caller or a worker may pass in.
pub mod Chars
pub mod Data
pub mod Keys
unfoldable pub use Chars.{Text, text, text_eq, is_inherited}
pub use Chars.{text_eq_iff, text_eq_refl}
unfoldable pub use Data.*
unfoldable pub use Keys.{exact_fields}
