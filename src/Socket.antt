-- ===== src/Socket.antt =====
-- core/net/socket.
pub mod External
mod Defs
mod Object
mod Options
mod Address
mod Text
unfoldable pub use Defs.*
unfoldable pub use Address.*
unfoldable pub use Object.*
pub use Options.*
pub use Text.*
