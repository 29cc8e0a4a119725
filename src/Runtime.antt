-- ===== src/Runtime.antt =====
-- The runtime store's publication (src/proxy/runtime.rs) over the health-check registry
-- (src/proxy/upstream/health_check.rs): `Registry` is the registry, `Publish` the publication.
mod Registry
mod Publish
pub mod Reconciled
unfoldable pub use Registry.*
unfoldable pub use Publish.*
