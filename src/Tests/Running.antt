-- ===== src/Tests/Running.antt =====
-- Cold start and shutdown of a small daemon.
use graphify_daemon_portfoli.Prelude.{
  ◌≡◌, refl, arith, true, false, none, some, [], ◌∷◌, String-discrete,
}
use graphify_daemon_portfoli.Prelude.Dict.{lookup, put, remove}
use graphify_daemon_portfoli.Prelude.Exec.{Error, ok, raise, database_error}
use graphify_daemon_portfoli.Prelude.Text.{Value}
use graphify_daemon_portfoli.Vault.Path.{suffix, last_dot, of_str, str, relative_to}
use graphify_daemon_portfoli.Vault.Exclusions.{is_excluded, resolve_within_vault, sanitize_log_text}
use graphify_daemon_portfoli.Vault.Batching.Watcher.{reject_new_events, drain_pending_batch}
use graphify_daemon_portfoli.Compiler.Extraction
use graphify_daemon_portfoli.Compiler.Extraction.{
  ExtractionCache, extract_batch, extract_changes, extract_change, drop_previous, FilePath-discrete,
}
use graphify_daemon_portfoli.Compiler.Snapshot.{GraphSnapshot, SnapshotHolder, build_graph, publish}
use graphify_daemon_portfoli.Lifecycle.VaultIndex.{sync_batch, sync_changes, sync_change}
use graphify_daemon_portfoli.Lifecycle.Cadence.{content_of}
use graphify_daemon_portfoli.Lifecycle.ColdStart.{cold_start, prune, is_observed, walk, visit}
use graphify_daemon_portfoli.Daemon.{
  DaemonState, Daemon, compile_batch, compile_pending, extract_step, sync_step, publish_step,
  cadence_step, shutdown,
}
use graphify_daemon_portfoli.Daemon.Compile.{compile_publishes}
use graphify_daemon_portfoli.Compiler.SlowCadence.{should_trigger, record_batch}
use graphify_daemon_portfoli.Vault.Batching.{Batch}
use graphify_daemon_portfoli.Prelude.{length}
use graphify_daemon_portfoli.Daemon.Lifecycle.{drained, closing}
use graphify_daemon_portfoli.Daemon.Persistence.{
  Keeps, shutdown_persists, compile_and_publish, failed_shutdown_never_persists,
  compile_after_shutdown_raises,
}
use graphify_daemon_portfoli.Tests.Fixtures.{
  vault, vault_fs, library, gone_script, one_node, new_note, batch, state, schedule, moment, daemon,
}

abbrev open_daemon : Daemon library
open_daemon = daemon true (new_note ∷ [])

abbrev final : Daemon library
final = (shutdown library vault_fs schedule moment open_daemon).1

last_batch_compiles :
    (compile_pending library vault_fs schedule moment
      (drained library open_daemon)
      (closing library open_daemon)).0
    ≡ ok tt
unfolding compile_pending compile_batch extract_step sync_step publish_step cadence_step
    extract_batch extract_changes extract_change drop_previous is_excluded lookup put remove suffix
    last_dot String-discrete Extraction.set relative_to Extraction.extract_file str sync_batch
    sync_changes sync_change build_graph publish reject_new_events drain_pending_batch
    Extraction.get
last_batch_compiles = refl

shutdown_returns : (shutdown library vault_fs schedule moment open_daemon).0 ≡ ok tt
unfolding shutdown
shutdown_returns = ground (arith, last_batch_compiles)

shutdown_persists_example :
    (final.state ≡ DaemonState.stopped)
    × (final.vault_index_conn.is_open ≡ false)
    × (content_of library final.disk.graph_cache_json
        ≡ some
            (compile_pending library vault_fs schedule moment
              (drained library open_daemon)
              (closing library open_daemon)).1.cache)
    × (final.holder
        ≡ (compile_pending library vault_fs schedule moment
            (drained library open_daemon)
            (closing library open_daemon)).1.holder)
shutdown_persists_example =
    shutdown_persists library vault_fs schedule moment open_daemon refl shutdown_returns

compile_after_shutdown_raises_example :
    let r = compile_batch library vault_fs schedule moment batch final in
    (e : Error) × (r.0 ≡ raise e) × Keeps library vault_fs schedule moment r.1 final
compile_after_shutdown_raises_example =
    compile_after_shutdown_raises library vault_fs schedule moment open_daemon batch refl
      shutdown_returns

-- A daemon whose database fails.
abbrev broken_daemon : Daemon library
broken_daemon = daemon false (new_note ∷ [])

abbrev interrupted : Daemon library
interrupted =
    (compile_and_publish library vault_fs schedule moment (record { changes = new_note ∷ [] })
      (closing library broken_daemon)).1

drained_note : drained library broken_daemon ≡ some (record { changes = new_note ∷ [] })
unfolding reject_new_events drain_pending_batch
drained_note = refl

last_batch_fails :
    (compile_and_publish library vault_fs schedule moment
      (record { changes = new_note ∷ [] })
      (closing library broken_daemon)).0
    ≡ raise database_error
unfolding extract_step sync_step publish_step extract_batch extract_changes extract_change
    drop_previous is_excluded lookup put remove suffix last_dot String-discrete Extraction.set
    relative_to Extraction.extract_file str sync_batch reject_new_events drain_pending_batch
last_batch_fails = refl

failed_shutdown_never_persists_example :
    (shutdown library vault_fs schedule moment broken_daemon ≡ (raise database_error, interrupted))
    × (interrupted.state ≡ DaemonState.stopping)
    × (interrupted.disk ≡ broken_daemon.disk)
    × (interrupted.vault_index_conn.is_open ≡ broken_daemon.vault_index_conn.is_open)
    × (shutdown library vault_fs schedule moment interrupted ≡ (ok tt, interrupted))
failed_shutdown_never_persists_example =
    failed_shutdown_never_persists library vault_fs schedule moment broken_daemon
      (record { changes = new_note ∷ [] }) database_error refl drained_note last_batch_fails

abbrev no_snapshot : SnapshotHolder library
no_snapshot = record { current = none; next_version = 1 }

abbrev first_snapshot : GraphSnapshot library
first_snapshot = record {
  graph = (("source_file", Value.text "a.md") ∷ []) ∷ [];
  trigram_index = tt;
  community_map = [];
  version = 1;
}

cold_start_run : (cold_start library vault_fs vault [] state no_snapshot).0 ≡ ok first_snapshot
unfolding cold_start walk visit is_excluded resolve_within_vault lookup put remove suffix last_dot
    String-discrete Extraction.set Extraction.mtime Extraction.entries relative_to
    Extraction.extract_file str of_str prune is_observed build_graph publish
    Extraction.extract_file_with_failure_isolation sanitize_log_text FilePath-discrete
cold_start_run = refl

-- A cache of two files, of which the walk saw one.
abbrev two_files : ExtractionCache
two_files = record { entries = ("a.md", one_node) ∷ ("b.py", one_node) ∷ []; mtimes = [] }

-- Fewer changes than make the slow cadence due.
abbrev small_batch : Batch
small_batch = record { changes = new_note ∷ gone_script ∷ [] }

small_batch_compiles :
    (compile_batch library vault_fs schedule moment small_batch open_daemon).0 ≡ ok tt
unfolding compile_batch extract_step sync_step publish_step cadence_step extract_batch
    extract_changes extract_change drop_previous is_excluded lookup put remove suffix last_dot
    String-discrete Extraction.set relative_to Extraction.extract_file str sync_batch sync_changes
    sync_change build_graph publish Extraction.get
small_batch_compiles = refl

is_quiet :
    should_trigger moment.asked
      (record_batch (length small_batch.changes) moment.recorded open_daemon.tracker)
    ≡ false
unfolding should_trigger record_batch
is_quiet = refl

compile_publishes_example :
    let compiled = (compile_batch library vault_fs schedule moment small_batch open_daemon).1 in
    ((s : GraphSnapshot library) × (compiled.holder.current ≡ some s)
      × (s.version ≡ 1)
      × (s.community_map ≡ []))
    × (compiled.disk ≡ open_daemon.disk)
compile_publishes_example =
    compile_publishes library vault_fs schedule moment small_batch open_daemon small_batch_compiles
      is_quiet
