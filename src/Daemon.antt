-- ===== src/Daemon.antt =====
-- daemon.py: the composition of the components, one record for all that `Daemon` owns. The telemetry
-- registry is one object that the daemon shares with the watcher: it is the watcher's field here. Each
-- method that runs under the coordinator's lock is one step.
pub mod Lifecycle
pub mod Persistence
pub mod Compile
pub mod Serving
pub mod Configuration
pub mod Main
pub mod Restart
pub mod Threads
pub mod Service
use graphify_daemon_portfoli.Prelude.{
  ℕ, Bool, true, false, Option, none, some, List, [], ◌∷◌, String, if◌then◌else◌, length,
}
use graphify_daemon_portfoli.Prelude.Exec.{Result, Exec, ok, raise, ◌>>=◌, ◌>>◌, pure, modify}
use graphify_daemon_portfoli.Vault.Path.{FilePath}
use graphify_daemon_portfoli.Vault.FileSystem.{FileSystem}
use graphify_daemon_portfoli.Vault.Batching.{Batch, consume}
use graphify_daemon_portfoli.Vault.Batching.Watcher.{
  Watcher, cancel_idle, schedule_idle, reject_new_events, drain_pending_batch, stop,
}
use graphify_daemon_portfoli.Graphify.{Communities, Graphify}
use graphify_daemon_portfoli.Compiler.Extraction
use graphify_daemon_portfoli.Compiler.Extraction.{ExtractionCache, LogLine, extract_batch}
use graphify_daemon_portfoli.Compiler.Snapshot.{GraphSnapshot, SnapshotHolder, build_graph, publish}
use graphify_daemon_portfoli.Compiler.SlowCadence.{SlowCadenceTracker, record_batch}
use graphify_daemon_portfoli.Compiler.Clustering.{Schedule}
use graphify_daemon_portfoli.Lifecycle.VaultIndex.{Connection, sync_batch}
use graphify_daemon_portfoli.Lifecycle.Artifacts.{Disk, write_current, save_cache}
use graphify_daemon_portfoli.Lifecycle.Cadence.{Cycle, run_slow_cadence_cycle}

pub data DaemonState : Type 0 where
  running stopping stopped : DaemonState

-- The readings of the clock in one compilation: by `record_batch`, by `should_trigger`, and at the end of
-- the cycle.
pub record Moment : Type 0 where
  pub recorded : ℕ
  pub asked : ℕ
  pub ended : ℕ

module _ (g : Graphify) where
  pub record Daemon : Type 0 where
    pub vault_root : FilePath
    pub nested_repo_names : List String
    pub state : DaemonState
    pub holder : SnapshotHolder g
    pub cache : ExtractionCache
    pub log : List LogLine
    pub tracker : SlowCadenceTracker
    pub vault_index_conn : Connection
    pub watcher : Watcher
    pub disk : Disk g

  -- `current.community_map if current is not None else {}`
  abbrev pub served_communities : Option (GraphSnapshot g) → Communities
  served_communities none = []
  served_communities (some s) = s.community_map

  -- The slow-cadence cycle on the daemon's parts.
  unfoldable pub run_cycle : Schedule → ℕ → ℕ → Daemon → Bool × Daemon
  run_cycle schedule asked ended d =
      let (ran, c) = run_slow_cadence_cycle g d.cache schedule asked ended (record {
        tracker = d.tracker;
        holder = d.holder;
        metrics = d.watcher.metrics;
        disk = d.disk;
      }) in
      (
        ran,
        record d {
          tracker = c.tracker;
          holder = c.holder;
          watcher = record d.watcher { metrics = c.metrics };
          disk = c.disk;
        },
      )

  -- `_run_slow_cadence_cycle`, which the idle timer runs
  unfoldable pub on_idle_cadence : Schedule → ℕ → ℕ → Daemon → Daemon
  unfolding run_cycle
  on_idle_cadence schedule asked ended d = (run_cycle schedule asked ended d).1

  module _ (fs : FileSystem) where
    -- `extract_batch` on the daemon's parts
    unfoldable pub extract_step : Batch → Exec Daemon Unit
    extract_step batch d =
        let (r, s) =
          extract_batch g fs d.nested_repo_names d.vault_root batch
            (record { cache = d.cache; metrics = d.watcher.metrics; log = d.log }) in
        let d' = record d {
          cache = s.cache;
          log = s.log;
          watcher = record d.watcher { metrics = s.metrics };
        } in
        (elim r [ raise e ↦ raise e | ok results ↦ ok tt ], d')

    -- `sync_batch` on the daemon's parts
    unfoldable pub sync_step : Batch → Exec Daemon Unit
    sync_step batch d =
        let (r, conn) =
          sync_batch fs d.cache d.nested_repo_names d.vault_root batch d.vault_index_conn in
        (r, record d { vault_index_conn = conn })

    -- The graph of the whole cache, published with the communities that are served.
    unfoldable pub publish_step : Exec Daemon Unit
    publish_step d = elim (build_graph g d.cache) [
      | raise e ↦ (raise e, d)
      | ok graph ↦ (
        ok tt,
        record d { holder = (publish g graph (served_communities d.holder.current) d.holder).1 },
      )
    ]

    -- The tracker, the cycle if it is due, and the idle timer.
    unfoldable pub cadence_step : Schedule → Moment → Batch → Daemon → Daemon
    unfolding run_cycle
    cadence_step schedule m batch d =
        let noted = record d {
          tracker = record_batch (length batch.changes) m.recorded d.tracker;
        } in
        let (ran, d') = run_cycle schedule m.asked m.ended noted in
        record d' { watcher = if ran then cancel_idle d'.watcher else schedule_idle d'.watcher }

    -- `_compile_batch`; the batch consumer calls it once for each batch.
    unfoldable pub compile_batch : Schedule → Moment → Batch → Exec Daemon Unit
    compile_batch schedule m batch = do
      extract_step batch
      sync_step batch
      publish_step
      modify (cadence_step schedule m batch)

  -- `persist_on_shutdown`
  unfoldable pub persist_on_shutdown : Daemon → Daemon
  persist_on_shutdown d = record d {
    disk = save_cache g d.cache (write_current g d.holder.current d.disk);
    vault_index_conn = record d.vault_index_conn { is_open = false };
  }

  -- What `shutdown` does after the pending batch, if any, was compiled.
  unfoldable pub finish_shutdown : Daemon → Daemon
  unfolding persist_on_shutdown
  finish_shutdown d = record (persist_on_shutdown (record d { watcher = stop d.watcher })) {
    state = DaemonState.stopped;
  }

  module _ (fs : FileSystem) (schedule : Schedule) (m : Moment) where
    -- The pending batch of a shutdown, under the coordinator's lock.
    unfoldable pub compile_pending : Option Batch → Exec Daemon Unit
    unfolding compile_batch
    compile_pending none = pure tt
    compile_pending (some batch) = consume (compile_batch fs schedule m) batch

    -- From RUNNING: reject, drain, compile what was pending, stop, persist. A compilation that raises ends it.
    unfoldable pub shutdown_running : Exec Daemon Unit
    unfolding compile_pending finish_shutdown
    shutdown_running d =
        let rejecting = reject_new_events d.watcher in
        let (pending, drained) = drain_pending_batch rejecting in
        (do compile_pending pending; modify finish_shutdown)
          (record d { state = DaemonState.stopping; watcher = drained })

    unfoldable pub shutdown : Exec Daemon Unit
    unfolding shutdown_running
    shutdown d = elim d.state [ DaemonState.running ↦ shutdown_running d | _ ↦ (ok tt, d) ]
