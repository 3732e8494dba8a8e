-- ===== src/Vault/Batching.antt =====
-- vault_compiler/batching.py: file changes, batches, and the handler of file-system events.
pub mod Handler
pub mod Watcher
use graphify_daemon_portfoli.Prelude.{Option, none, some, List}
use graphify_daemon_portfoli.Prelude.Exec.{Result, Exec, ok, raise, value_error}
use graphify_daemon_portfoli.Vault.Path.{FilePath}

pub data ChangeKind : Type 0 where
  created modified deleted renamed : ChangeKind

pub record FileChange : Type 0 where
  pub path : FilePath
  pub kind : ChangeKind
  pub previous_path : Option FilePath

-- The checks of `__post_init__`.
abbrev pub post_init : FilePath → ChangeKind → Option FilePath → Result FileChange
post_init path ChangeKind.renamed none = raise value_error
post_init path ChangeKind.renamed (some q) =
    ok (record { path = path; kind = ChangeKind.renamed; previous_path = some q })
post_init path kind none = ok (record { path = path; kind = kind; previous_path = none })
post_init path kind (some q) = raise value_error

-- `FileChange(path=…, kind=…, previous_path=…)`
unfoldable pub file_change : FilePath → ChangeKind → Option FilePath → Result FileChange
file_change = post_init

pub record Batch : Type 0 where
  pub changes : List FileChange

-- `BatchConsumer.consume`
abbrev pub consume : {S : Type 0} → (Batch → Exec S Unit) → Batch → Exec S Unit
consume compile_batch batch = compile_batch batch
