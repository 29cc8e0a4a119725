-- ===== src/Status.antt =====
-- Readiness and etcd sync status (src/core/status.rs): `StatusStore`, whose mutex guards one
-- `RuntimeStatusInner`. `Store` has the methods that change it, `View` the readers, `Readiness`
-- and `Reconnect` the proofs.
mod Store
mod View
pub mod Readiness
pub mod Reconnect
unfoldable pub use Store.*
unfoldable pub use View.*
