-- ===== src/Admin.antt =====
-- Admin mutations: `put` and `delete` of the configuration graph authority
-- (src/proxy/graph_mutation/authority.rs) and the status that the Admin API answers with
-- (src/admin/mod.rs).
mod Request
pub mod Answers
pub mod Commits
unfoldable pub use Request.*
