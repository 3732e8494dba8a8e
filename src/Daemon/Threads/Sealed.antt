-- ===== src/Daemon/Threads/Sealed.antt =====
-- daemon.py: no part of a compilation reads what the other threads change meanwhile, the watcher and the
-- lifecycle state.
use graphify_daemon_portfoli.Prelude.{refl, arith, none}
use graphify_daemon_portfoli.Prelude.Exec.{modify}
use graphify_daemon_portfoli.Prelude.Frame.{IsBlind}
use graphify_daemon_portfoli.Vault.Batching.{Batch}
use graphify_daemon_portfoli.Vault.Batching.Watcher.{init}
use graphify_daemon_portfoli.Graphify.{Graphify}
use graphify_daemon_portfoli.Compiler.Extraction.Muted.{extract_batch-IsBlind}
use graphify_daemon_portfoli.Compiler.Clustering.{run_clustering_cycle}
use graphify_daemon_portfoli.Lifecycle.Cadence.{run_slow_cadence_cycle}
use graphify_daemon_portfoli.Daemon.{
  DaemonState, Daemon, extract_step, sync_step, publish_step, cadence_step, run_cycle,
  on_idle_cadence,
}
use graphify_daemon_portfoli.Daemon.Threads.{Turn, Phase, run_phase}

module _ (g : Graphify) where
  -- What only bodies under the coordinator's lock change: everything but the watcher, with the metrics, and
  -- the lifecycle state.
  abbrev pub sealed : Daemon g → Daemon g
  sealed d = record d { state = DaemonState.running; watcher = init 0 none }

  extract-IsBlind : (b : Batch) (t : Turn) → IsBlind sealed (extract_step g t.files b)
  unfolding extract_step init
  extract-IsBlind b t = record {
    result = λ d. ground (
      arith,
      (extract_batch-IsBlind g t.files d.nested_repo_names d.vault_root b).result
          (record { cache = d.cache; metrics = d.watcher.metrics; log = d.log }),
    );
    rest = λ d. ground (
      arith,
      (extract_batch-IsBlind g t.files d.nested_repo_names d.vault_root b).rest
          (record { cache = d.cache; metrics = d.watcher.metrics; log = d.log }),
    );
  }

  pub cycle-IsBlind :
      (t : Turn)
      → IsBlind sealed (modify (on_idle_cadence g t.schedule t.moment.asked t.moment.ended))
  unfolding on_idle_cadence run_cycle run_slow_cadence_cycle run_clustering_cycle init
  cycle-IsBlind t = record { result = λ d. refl; rest = λ d. ground arith }

  pub phase-IsBlind : (p : Phase) (b : Batch) (t : Turn) → IsBlind sealed (run_phase g p b t)
  unfolding run_phase sync_step publish_step cadence_step run_cycle run_slow_cadence_cycle
      run_clustering_cycle init
  phase-IsBlind Phase.extracting b t = extract-IsBlind b t
  phase-IsBlind Phase.syncing b t = record { result = λ d. refl; rest = λ d. refl }
  phase-IsBlind Phase.publishing b t = record {
    result = λ d. ground arith;
    rest = λ d. ground arith;
  }
  phase-IsBlind Phase.noting b t = record { result = λ d. refl; rest = λ d. ground arith }
