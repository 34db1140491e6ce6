-- ===== src/Server.antt =====
-- core/net/tcp/tcp_server.h and tcp_server.cpp.
mod Defs
mod Connections
mod Accepted
mod Callbacks
pub mod System
unfoldable pub use Defs.*
pub use Connections.*
pub use Accepted.*
unfoldable pub use Callbacks.*
