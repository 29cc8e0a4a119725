-- ===== src/Limiter.antt =====
-- The bounded maps of the limiter plugins (src/plugins/limiter_shards.rs, src/plugins/limiting.rs):
-- `Order` is the recency order, `Entries` the entries with their admission; `Index`, `Sweep` and
-- `Capacity` are the proofs.
mod Order
pub mod Index
mod Entries
pub mod Sweep
pub mod Capacity
unfoldable pub use Order.*
unfoldable pub use Entries.*
