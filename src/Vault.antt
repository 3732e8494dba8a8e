-- ===== src/Vault.antt =====
-- What the daemon sees of the vault: paths, the file system, and the exclusion rules.
pub mod Path
pub mod FileSystem
pub mod Exclusions
pub mod Batching
