-- ===== src/Thread.antt =====
-- core/thread/thread.cpp and core/net/event/event_loop_thread.cpp.
mod Defs
mod Base
mod Handshake
mod Shutdown
pub use Defs.*
pub use Handshake.*
pub use Shutdown.*
unfoldable pub use Base.*
