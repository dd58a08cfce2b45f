-- ===== src/Text.antt =====
-- Go strings and the functions of package strings that the agent calls. A text is the list of
-- its code points; a byte that is no part of one, as a cut within a rune leaves it, has a code
-- above them all. `byte_length` is what Go's `len` counts.
mod Equality
mod Trim
mod Search
mod Bounded
mod Bytes
mod Numbers
unfoldable pub use Equality.*
unfoldable pub use Trim.*
unfoldable pub use Search.*
unfoldable pub use Bounded.*
unfoldable pub use Bytes.*
unfoldable pub use Numbers.*
