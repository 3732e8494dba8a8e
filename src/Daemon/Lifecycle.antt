-- ===== src/Daemon/Lifecycle.antt =====
-- daemon.py: the lifecycle states, and what a shutdown guarantees.
use graphify_daemon_portfoli.Prelude.{ℕ, ◌≡◌, ◌≢◌, refl, arith, Option, none, some, ◌⊎◌, inl, inr}
use graphify_daemon_portfoli.Prelude.Exec.{Error, Result, ok, raise}
use graphify_daemon_portfoli.Vault.FileSystem.{FileSystem}
use graphify_daemon_portfoli.Vault.Batching.{Batch}
use graphify_daemon_portfoli.Vault.Batching.Watcher.{reject_new_events, drain_pending_batch}
use graphify_daemon_portfoli.Graphify.{Graphify}
use graphify_daemon_portfoli.Compiler.Clustering.{Schedule}
use graphify_daemon_portfoli.Daemon.{
  DaemonState, Moment, Daemon, extract_step, sync_step, publish_step, cadence_step, compile_batch,
  run_cycle, persist_on_shutdown, finish_shutdown, compile_pending, shutdown_running, shutdown,
}

abbrev pub rank : DaemonState → ℕ
rank DaemonState.running = 0
rank DaemonState.stopping = 1
rank DaemonState.stopped = 2

module _ (g : Graphify) where
  -- The batch that a shutdown drains, and the daemon that compiles it.
  abbrev pub drained : Daemon g → Option Batch
  drained d = (drain_pending_batch (reject_new_events d.watcher)).0

  abbrev pub closing : Daemon g → Daemon g
  closing d = record d {
    state = DaemonState.stopping;
    watcher = (drain_pending_batch (reject_new_events d.watcher)).1;
  }

module _ (g : Graphify) (fs : FileSystem) (schedule : Schedule) (m : Moment) where
  -- A compilation does not touch the lifecycle state.
  state-compile :
      (batch : Batch) (d : Daemon g) → (compile_batch g fs schedule m batch d).1.state ≡ d.state
  unfolding compile_batch extract_step sync_step publish_step cadence_step run_cycle
  state-compile batch d = ground arith

  state-pending :
      (pending : Option Batch) (d : Daemon g)
      → (compile_pending g fs schedule m pending d).1.state ≡ d.state
  unfolding compile_pending
  state-pending none d = refl
  state-pending (some batch) d = state-compile batch d

  -- The compilation of what a shutdown drains.
  abbrev pub last_compilation : Daemon g → Result (Unit {0}) × Daemon g
  last_compilation d = compile_pending g fs schedule m (drained g d) (closing g d)

  pub shutdown_ok :
      (d : Daemon g)
      → d.state ≡ DaemonState.running
      → (last_compilation d).0 ≡ ok tt
      → shutdown g fs schedule m d ≡ (ok tt, finish_shutdown g (last_compilation d).1)
  unfolding shutdown shutdown_running
  shutdown_ok d h e = ground (arith, h, e)

  pub shutdown_raise :
      (d : Daemon g) (e : Error)
      → d.state ≡ DaemonState.running
      → (last_compilation d).0 ≡ raise e
      → shutdown g fs schedule m d ≡ (raise e, (last_compilation d).1)
  unfolding shutdown shutdown_running
  shutdown_raise d e h p = ground (arith, h, p)

  shutdown_again :
      (d : Daemon g) → d.state ≢ DaemonState.running → shutdown g fs schedule m d ≡ (ok tt, d)
  unfolding shutdown
  shutdown_again d h = ground arith

  -- How a shutdown from RUNNING ends: it returns and the daemon is STOPPED, or it raises and the daemon is
  -- left STOPPING.
  abbrev pub Ends : Daemon g → Type 0
  Ends d =
      (((shutdown g fs schedule m d).0 ≡ ok tt)
        × ((shutdown g fs schedule m d).1.state ≡ DaemonState.stopped))
      ⊎ ((e : Error) × ((shutdown g fs schedule m d).0 ≡ raise e)
          × ((shutdown g fs schedule m d).1.state ≡ DaemonState.stopping))

  pub ends : (d : Daemon g) → d.state ≡ DaemonState.running → Ends d
  unfolding finish_shutdown persist_on_shutdown
  ends d h = from (last_compilation d).0 refl
    where
      from : (r : Result (Unit {0})) → (last_compilation d).0 ≡ r → Ends d
      from (ok tt) e = inl (ground (arith, shutdown_ok d h e), ground (arith, shutdown_ok d h e))
      from (raise x) e = inr (
        x,
        ground (arith, shutdown_raise d x h e),
        ground (arith, shutdown_raise d x h e, state-pending (drained g d) (closing g d)),
      )

  -- After a shutdown the daemon is not RUNNING.
  pub shutdown-not_running :
      (d : Daemon g) → (shutdown g fs schedule m d).1.state ≢ DaemonState.running
  shutdown-not_running d = from d.state refl
    where
      from :
          (st : DaemonState)
          → d.state ≡ st
          → (shutdown g fs schedule m d).1.state ≢ DaemonState.running
      from DaemonState.running e = elim (ends d e) [
        | inl (done, stopped) ↦ λ r. absurd (cc)
        | inr (x, raised, stopping) ↦ λ r. absurd (cc)
      ]
      from DaemonState.stopping e = λ r. absurd (ground (arith, shutdown_again d, e))
      from DaemonState.stopped e = λ r. absurd (ground (arith, shutdown_again d, e))

  -- A second shutdown returns and changes nothing, whether the first one returned or raised.
  pub shutdown_twice :
      (d : Daemon g)
      → shutdown g fs schedule m (shutdown g fs schedule m d).1
        ≡ (ok tt, (shutdown g fs schedule m d).1)
  shutdown_twice d = shutdown_again (shutdown g fs schedule m d).1 (shutdown-not_running d)
