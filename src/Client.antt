-- ===== src/Client.antt =====
-- core/net/tcp/tcp_client.h and tcp_client.cpp.
mod Defs
mod Closing
mod Connecting
unfoldable pub use Defs.*
pub use Closing.*
pub use Connecting.*
