-- ===== src/Compiler.antt =====
-- The write side of the daemon: src/graphify_daemon/vault_compiler.
pub mod Extraction
pub mod Snapshot
pub mod Clustering
pub mod SlowCadence
