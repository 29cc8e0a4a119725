-- ===== src/Etcd.antt =====
-- The etcd adapter (src/config/etcd): the names of the namespace (keys.rs), the list and the watch
-- responses mapped to graphs and changes, and the synchronisation loop (sync.rs). `std`'s tests of
-- UTF-8 and the values that the client returns are inputs.
mod Names
mod Snapshot
mod Events
pub mod Physical
pub mod View
pub mod Coalesced
pub mod Mirror
pub mod Sync
pub mod Loop
pub mod Recovery
pub mod Relist
pub mod Client
unfoldable pub use Names.*
unfoldable pub use Snapshot.*
unfoldable pub use Events.*
