-- ===== src/Strings.antt =====
-- Go's package strings, as far as the program calls it, on byte strings.
mod Search
mod Trim
pub mod Laws
pub mod Digits
pub mod Tests
unfoldable pub use Search.*
unfoldable pub use Trim.*
