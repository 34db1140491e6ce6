-- ===== src/Server/System.antt =====
-- tcp_server.cpp and tcp_connection.cpp together: a server, the loops of its pool and the connections
-- that stand between them.
mod Defs
mod Queues
mod Invariant
mod Maps
mod Frames
mod Calls
mod Producers
mod Runs
mod Posts
mod Removals
mod Arrivals
mod Twice
mod Closes
mod Safety
mod Settled
mod Refused
mod Views
unfoldable pub use Defs.*
pub use Queues.*
pub use Invariant.*
unfoldable pub use Settled.*
pub use Refused.*
pub use Safety.*
pub use Views.*
