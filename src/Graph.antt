-- ===== src/Graph.antt =====
-- The configuration graph authority (src/proxy/graph_mutation): the storage-neutral vocabulary and
-- the in-memory store (store.rs), watch batches and planned mutations (decode.rs), and the worker's
-- publication state (state.rs, authority.rs). `Keys` maps the keys of etcd to resources.
mod Vocabulary
pub mod Memory
pub mod Decode
pub mod Publication
pub mod Keys
unfoldable pub use Vocabulary.*
