-- ===== src/Authority.antt =====
-- The configuration graph authority and its preparation worker (src/proxy/graph_mutation/state.rs,
-- authority.rs). `State` has the shared state and the submissions, `Worker` the worker's loop and
-- the interleavings, the other children the proofs.
mod State
mod Worker
pub mod Invariant
pub mod Fence
pub mod Shutdown
pub mod Race
pub mod Awake
pub mod Wakeup
unfoldable pub use State.*
unfoldable pub use Worker.*
