-- ===== src/Tests.antt =====
-- Concrete runs, and each theorem with hypotheses at an input that meets them.
mod Status
mod Store
mod Registry
mod Authority
mod Control
mod Limiter
mod Breaker
mod Runtime
mod Keys
mod Etcd
mod Selection
mod LimitConn
mod Admin
