-- ===== src/Vault/FileSystem.antt =====
-- The file system as the daemon reads it. `pathlib`'s queries ask the operating system, so they are
-- parameters; one value of `FileSystem` is the vault while one operation runs.
use graphify_daemon_portfoli.Prelude.{ℕ, Bool, List}
use graphify_daemon_portfoli.Prelude.Exec.{Result}
use graphify_daemon_portfoli.Vault.Path.{FilePath}

-- `st_mtime` in the clock's ticks and `st_size` of `path.stat()`
pub record Stat : Type 0 where
  pub mtime : ℕ
  pub size : ℕ

pub record FileSystem : Type 0 where
  -- `path.resolve(strict=False)`, which raises on some symlink loops
  pub resolve : FilePath → Result FilePath
  -- `path.stat()`
  pub stat : FilePath → Result Stat
  pub is_dir : FilePath → Bool
  -- `root.rglob("*")`
  pub rglob : FilePath → List FilePath
