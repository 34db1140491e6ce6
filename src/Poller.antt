-- ===== src/Poller.antt =====
-- core/net/poller and core/net/poller_impl.
pub mod Epoll
mod Defs
mod Sync
mod Remove
mod Poll
unfoldable pub use Defs.*
pub use Sync.*
pub use Remove.*
unfoldable pub use Poll.*
