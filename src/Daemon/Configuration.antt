-- ===== src/Daemon/Configuration.antt =====
-- daemon.py `main` and logging_config.py: the settings from the environment, in the order in which `main`
-- reads them.
pub mod Logging
use graphify_daemon_portfoli.Prelude.{ℕ, Option, none, some, List, [], String}
use graphify_daemon_portfoli.Prelude.Exec.{Result, ok, key_error, configuration_error, or_raise}
use graphify_daemon_portfoli.Prelude.Fallible.{◌>>=◌}
use graphify_daemon_portfoli.Prelude.Text.{Text}
use graphify_daemon_portfoli.Vault.Path.{FilePath}
use mathlib.Core.Option

-- What a start asks of Python and the system: `os.environ.get`, `int` of a text, the level of
-- `logging.getLevelName` for a name in upper case, and `Path(text).expanduser()`. A negative number is not
-- modelled.
pub record Environment : Type 0 where
  pub variable : String → Option String
  pub int : String → Result ℕ
  pub level_name : String → Option ℕ
  pub path : String → FilePath
  pub characters : String → Text

-- What `main` makes of the environment, for a daemon.
pub record Settings : Type 0 where
  pub vault_root : FilePath
  pub nested_repo_names : List String
  pub quiet_seconds : ℕ
  pub change_threshold : ℕ
  pub pending_warn_threshold : ℕ

-- `resolve_log_level`
unfoldable pub resolve_log_level : (String → Option ℕ) → Option String → Result ℕ
resolve_log_level level_name value =
    or_raise configuration_error (level_name (Option.get_or value "INFO"))

-- `int(value) if value is not None else default`
abbrev pub int_or : (String → Result ℕ) → ℕ → Option String → Result ℕ
int_or int default none = ok default
int_or int default (some value) = int value

-- `resolve_rotation_settings`
unfoldable pub resolve_rotation_settings :
    (String → Result ℕ) → Option String → Option String → Result (ℕ × ℕ)
resolve_rotation_settings int max_bytes backup_count = do
  resolved_max_bytes ← int_or int 10485760 max_bytes
  resolved_backup_count ← int_or int 5 backup_count
  ok (resolved_max_bytes, resolved_backup_count)

-- The part of `main` before the daemon is made. The size of the query cache is read, but the cache is not
-- among these settings.
unfoldable pub settings_of : Environment → Result Settings
unfolding resolve_log_level resolve_rotation_settings
settings_of env = do
  log_level ← resolve_log_level env.level_name (env.variable "GRAPHIFY_DAEMON_LOG_LEVEL")
  rotation ←
      resolve_rotation_settings env.int (env.variable "GRAPHIFY_DAEMON_LOG_MAX_BYTES")
        (env.variable "GRAPHIFY_DAEMON_LOG_BACKUP_COUNT")
  vault_root ← or_raise key_error (env.variable "GRAPHIFY_DAEMON_VAULT_ROOT")
  lru_size ← int_or env.int 512 (env.variable "GRAPHIFY_DAEMON_LRU_SIZE")
  pending_warn_threshold ←
      int_or env.int 200 (env.variable "GRAPHIFY_DAEMON_PENDING_WARN_THRESHOLD")
  ok (record {
    vault_root = env.path vault_root;
    nested_repo_names = [];
    quiet_seconds = 60;
    change_threshold = 25;
    pending_warn_threshold = pending_warn_threshold;
  })

-- The arguments of `run_forever` in `main`.
unfoldable pub port_of : Environment → Result ℕ
port_of env = int_or env.int 8787 (env.variable "GRAPHIFY_DAEMON_PORT")

abbrev pub host_of : Environment → String
host_of env = Option.get_or (env.variable "GRAPHIFY_DAEMON_HOST") "127.0.0.1"

abbrev pub api_key_of : Environment → Option Text
api_key_of env = Option.map env.characters (env.variable "GRAPHIFY_DAEMON_API_KEY")
