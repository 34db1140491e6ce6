-- ===== src/Connection.antt =====
-- core/net/tcp/tcp_connection.h and tcp_connection.cpp.
mod Defs
mod Sending
mod Api
mod Attached
mod Stream
mod Send
mod Drain
mod Graceful
mod Reading
mod Lifecycle
mod Written
mod Delivery
mod Revived
mod Rounds
unfoldable pub use Defs.*
unfoldable pub use Sending.*
unfoldable pub use Api.*
pub use Attached.*
pub use Stream.*
pub use Send.*
pub use Drain.*
unfoldable pub use Reading.*
pub use Lifecycle.*
pub use Written.*
unfoldable pub use Delivery.*
pub use Revived.*
unfoldable pub use Rounds.*
pub use Graceful.*
