-- ===== src/Common/Text.antt =====
-- Go strings as lists of bytes, and the functions of package strings that the program calls.
mod Bytes
mod Fold
mod Trim
mod Affix
mod Cut
unfoldable pub use Bytes.*
unfoldable pub use Fold.*
unfoldable pub use Trim.*
unfoldable pub use Affix.*
unfoldable pub use Cut.*
