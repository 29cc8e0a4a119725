-- ===== src/LimitConn.antt =====
-- The concurrency limit (src/plugins/limit_conn.rs).
mod Decide
mod Requests
pub mod Shape
pub mod Released
unfoldable pub use Decide.*
unfoldable pub use Requests.*
