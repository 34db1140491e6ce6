-- ===== src/Acceptor.antt =====
-- core/net/tcp/tcp_acceptor.h and tcp_acceptor.cpp.
pub mod Files
mod Defs
mod Accepting
mod Reserve
mod Lifecycle
mod Rounds
unfoldable pub use Defs.*
unfoldable pub use Accepting.*
pub use Reserve.*
pub use Lifecycle.*
unfoldable pub use Rounds.*
