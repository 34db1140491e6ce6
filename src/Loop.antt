-- ===== src/Loop.antt =====
-- core/net/event/event_loop.cpp.
pub mod External
mod Defs
mod Invariant
mod Calls
mod History
mod Cleared
mod Run
mod Detach
mod Opening
mod Fresh
mod Reports
mod Tasks
mod Rounds
mod Service
unfoldable pub use Defs.*
unfoldable pub use Run.*
pub use Invariant.*
pub use Calls.*
unfoldable pub use History.*
pub use Cleared.*
pub use Detach.*
pub use Opening.*
pub use Fresh.*
pub use Reports.*
pub use Tasks.*
pub use Rounds.*
pub use Service.*
