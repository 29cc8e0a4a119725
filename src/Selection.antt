-- ===== src/Selection.antt =====
-- Upstream backend selection (src/proxy/upstream/selection.rs). Pingora's selection algorithms are
-- parameters: the iterator that an algorithm makes for a group, and what the iterator draws.
mod Backends
mod Iterate
pub mod Groups
mod Bits
pub mod Halts
pub mod Grouping
pub mod Coverage
pub mod Walk
unfoldable pub use Backends.*
unfoldable pub use Iterate.*
