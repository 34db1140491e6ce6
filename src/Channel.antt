-- ===== src/Channel.antt =====
-- core/net/event/event.cpp and core/net/event/event_channel.cpp.
pub mod Flags
mod Defs
mod Printing
mod Masks
mod Dispatch
unfoldable pub use Defs.*
unfoldable pub use Printing.*
pub use Masks.*
pub use Dispatch.*
