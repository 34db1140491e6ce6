-- ===== src/Buffer.antt =====
-- core/base/buffer: the byte buffer, its invariant and its laws.
mod Defs
mod Inv
mod Append
mod Read
mod ReadFd
mod Crlf
mod Fifo
unfoldable pub use Defs.*
pub use Inv.*
pub use Append.*
pub use Read.*
pub use ReadFd.*
pub use Crlf.*
pub use Fifo.*
