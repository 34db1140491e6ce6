-- ===== src/Connector.antt =====
-- core/net/tcp/tcp_connector.h and tcp_connector.cpp.
mod Defs
mod Starting
mod Established
mod Retrying
unfoldable pub use Defs.*
pub use Starting.*
pub use Established.*
unfoldable pub use Retrying.*
