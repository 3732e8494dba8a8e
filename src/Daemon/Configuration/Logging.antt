-- ===== src/Daemon/Configuration/Logging.antt =====
-- logging_config.py: `configure_logging`. The root logger of Python is a level and its handlers.
use graphify_daemon_portfoli.Prelude.{
  ℕ, ◌≡◌, arith, Bool, true, false, List, [], ◌∷◌, ◌++◌, String, some,
}
use graphify_daemon_portfoli.Vault.Path.{FilePath}
use graphify_daemon_portfoli.Lifecycle.Artifacts.{Mode, restrict_to_owner}

pub record Handler : Type 0 where
  pub file : FilePath
  pub max_bytes : ℕ
  pub backup_count : ℕ
  pub format : String

-- The root logger, and the modes of the log file and of its directory.
pub record Root : Type 0 where
  pub is_posix : Bool
  pub level : ℕ
  pub handlers : List Handler
  pub directory_mode : Mode
  pub file_mode : Mode

unfoldable pub configure_logging : FilePath → ℕ → ℕ → ℕ → Root → Root
unfolding restrict_to_owner
configure_logging log_file level max_bytes backup_count root = record root {
  level = level;
  handlers =
      root.handlers
      ++ record {
        file = log_file;
        max_bytes = max_bytes;
        backup_count = backup_count;
        format = "%(asctime)s %(levelname)s %(name)s: %(message)s";
      }
        ∷ [];
  directory_mode = restrict_to_owner root.is_posix true root.directory_mode;
  file_mode = restrict_to_owner root.is_posix false root.file_mode;
}

-- On POSIX only the owner can read the log or list its directory once logging is configured.
configure_logging-private :
    (log_file : FilePath) (level max_bytes backup_count : ℕ) (root : Root)
    → root.is_posix ≡ true
    → let after = configure_logging log_file level max_bytes backup_count root in
      (after.directory_mode ≡ some 0o700) × (after.file_mode ≡ some 0o600)
unfolding configure_logging restrict_to_owner
configure_logging-private log_file level max_bytes backup_count root h = ground arith
