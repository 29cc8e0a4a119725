-- ===== src/Control.antt =====
-- The control plane (src/proxy/control_plane): the configuration graph and its validation
-- (resources.rs), the plan of what a candidate reuses (plan.rs) and the compilation of a candidate
-- (compile.rs), with the constructors of the compiled objects (service.rs, global_rule.rs,
-- route.rs) and the registry of plugins (plugins/mod.rs).
pub mod Config
pub mod Registry
pub mod Validate
pub mod Merge
pub mod Merged
pub mod Compiled
pub mod Plan
pub mod Snapshot
pub mod Sections
pub mod Locality
pub mod Passes
pub mod Coherent
pub mod Incremental
pub mod Whole
pub mod Refined
pub mod Prepared
pub mod Failures
pub mod Sound
pub mod Needs
pub mod Compiles
pub mod TrafficSplit
pub mod Executors
pub mod Weights
pub mod SplitLocal
pub mod Bootstrap
