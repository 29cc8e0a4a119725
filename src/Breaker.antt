-- ===== src/Breaker.antt =====
-- The circuit breaker plugin (src/plugins/api_breaker.rs): the status sets (`Codes`), the
-- configuration that a plugin accepts (`Config`), the state of one route (`State`), and the bounded
-- map of the states (`States`).
pub mod Codes
pub mod Config
mod State
mod States
pub mod Eviction
pub mod Trips
unfoldable pub use Codes.*
unfoldable pub use Config.*
unfoldable pub use State.*
unfoldable pub use States.*
