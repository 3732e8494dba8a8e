-- ===== src/Lifecycle.antt =====
-- The life of the daemon's artifacts: src/graphify_daemon/artifact_lifecycle.
pub mod Metrics
pub mod VaultIndex
pub mod Artifacts
pub mod Cadence
pub mod ColdStart
pub mod Health
pub mod Report
pub mod Paths
