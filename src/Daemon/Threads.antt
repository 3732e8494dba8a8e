-- ===== src/Daemon/Threads.antt =====
-- daemon.py, batching.py and shutdown.py: the daemon among its threads. The observer queues changes; debounce
-- timers flush them and hand the batch to the consumer under the coordinator's lock; idle timers run the
-- cycle under the same lock; one thread shuts down. A step is one method under the watcher's lock, or one
-- part of a body that runs under the coordinator's lock.
pub mod Watch
pub mod Places
pub mod Accounting
pub mod Progress
pub mod Settling
pub mod Sealed
pub mod Serial
pub mod Closing
pub mod Order
pub mod Publications
pub mod Persisted
mod Parts
unfoldable pub use Parts.*
use graphify_daemon_portfoli.Prelude.{
  ℕ, ◌+◌, ◌-◌, ◌<◌, ◌≡◌, ◌≢◌, Bool, true, false, Option, none, some, List, [], ◌∷◌, ◌++◌, ◌==◌, any,
  if◌then◌else◌,
}
use graphify_daemon_portfoli.Prelude.Exec.{Error, Result, ok, raise, Exec}
use graphify_daemon_portfoli.Vault.FileSystem.{FileSystem}
use graphify_daemon_portfoli.Vault.Batching.{FileChange, Batch}
use graphify_daemon_portfoli.Vault.Batching.Watcher.{
  queue_change, flush, drain_pending_batch, reject_new_events, stop, cancelled,
}
use graphify_daemon_portfoli.Graphify.{Graphify}
use graphify_daemon_portfoli.Compiler.Clustering.{Schedule}
use graphify_daemon_portfoli.Daemon.{
  DaemonState, Moment, Daemon, extract_step, sync_step, publish_step, cadence_step, on_idle_cadence,
  persist_on_shutdown,
}

module _ (g : Graphify) where
  pub record System : Type 0 where
    pub daemon : Daemon g
    -- timers that have fired, and whose callback waits for a lock
    pub due : ℕ
    pub idle_due : ℕ
    -- batches that `_flush` has taken, and whose thread waits for the coordinator's lock
    pub in_hand : List Batch
    pub owner : Owner
    pub stage : Stage
    -- the changes that `_queue_change` was given while the watcher accepted events
    pub accepted : List FileChange
    pub history : List Event

  -- The parts of `_compile_batch`.
  unfoldable pub run_phase : Phase → Batch → Turn → Exec (Daemon g) Unit
  run_phase Phase.extracting b t d = extract_step g t.files b d
  run_phase Phase.syncing b t d = sync_step g t.files b d
  run_phase Phase.publishing b t d = publish_step g t.files d
  run_phase Phase.noting b t d = (ok tt, cadence_step g t.files t.schedule t.moment b d)

  -- The end of `run_batch`: the lock is released, whether the body returned or raised.
  abbrev pub release : Caller → Batch → Turn → Result (Unit {0}) → System → System
  release who b t r s = record s {
    owner = Owner.free;
    stage = returned who r s.stage;
    history = s.history ++ Event.compiles b t ∷ [];
  }

  abbrev pub continue : Caller → Batch → Turn → Option Phase → Result (Unit {0}) → System → System
  continue who b t next (raise e) s = release who b t (raise e) s
  continue who b t none (ok u) s = release who b t (ok u) s
  continue who b t (some p) (ok u) s = record s { owner = Owner.compiling who b t p }

  abbrev pub after_queue : FileChange → System → System
  after_queue c s = record s {
    daemon = record s.daemon { watcher = queue_change c s.daemon.watcher };
    accepted = if s.daemon.watcher.rejecting_events then s.accepted else s.accepted ++ c ∷ [];
  }

  abbrev pub after_fire : ℕ → System → System
  after_fire t s = record s {
    daemon = record s.daemon {
      watcher = record s.daemon.watcher { armed = cancelled t s.daemon.watcher.armed };
    };
    due = s.due + 1;
  }

  abbrev pub after_idle_fire : ℕ → System → System
  after_idle_fire t s = record s {
    daemon = record s.daemon {
      watcher = record s.daemon.watcher { idle_armed = cancelled t s.daemon.watcher.idle_armed };
    };
    idle_due = s.idle_due + 1;
  }

  -- `_flush` under the watcher's lock; the batch is then in the thread's hand.
  abbrev pub after_flush : System → System
  after_flush s = record s {
    daemon = record s.daemon { watcher = (flush s.daemon.watcher).1 };
    due = s.due - 1;
    in_hand = handed (flush s.daemon.watcher).0 s.in_hand;
  }

  abbrev pub after_phase : Caller → Batch → Turn → Phase → System → System
  after_phase who b t p s =
      continue who b t (following p) (run_phase p b t s.daemon).0
        (record s { daemon = (run_phase p b t s.daemon).1 })

  abbrev pub after_cycle : Turn → System → System
  after_cycle t s = record s {
    daemon = on_idle_cadence g t.schedule t.moment.asked t.moment.ended s.daemon;
    owner = Owner.free;
    history = s.history ++ Event.cycles t ∷ [];
  }

  abbrev pub after_claim : System → System
  after_claim s = record s {
    daemon = record s.daemon { state = DaemonState.stopping };
    stage = Stage.claimed;
  }

  abbrev pub after_reject : System → System
  after_reject s = record s {
    daemon = record s.daemon { watcher = reject_new_events s.daemon.watcher };
    stage = Stage.rejected;
  }

  abbrev pub after_drain : System → System
  after_drain s = record s {
    daemon = record s.daemon { watcher = (drain_pending_batch s.daemon.watcher).1 };
    stage = after_drained (drain_pending_batch s.daemon.watcher).0;
  }

  abbrev pub after_stop : System → System
  after_stop s = record s {
    daemon = record s.daemon { watcher = stop s.daemon.watcher };
    stage = Stage.unwatched;
  }

  abbrev pub after_persist : System → System
  after_persist s = record s {
    daemon = persist_on_shutdown g s.daemon;
    owner = Owner.free;
    stage = Stage.persisted;
    history = s.history ++ Event.persists ∷ [];
  }

  abbrev pub after_finish : System → System
  after_finish s = record s {
    daemon = record s.daemon { state = DaemonState.stopped };
    stage = Stage.finished;
  }

  -- A step of a thread that has work to do: a timer, a body under a lock, or the shutdown on its way.
  pub data Work (s : System) : System → Type 0 where
    fires : (t : ℕ) → any (λ u. u == t) s.daemon.watcher.armed ≡ true → Work s (after_fire t s)
    fires_idle :
        (t : ℕ)
        → any (λ u. u == t) s.daemon.watcher.idle_armed ≡ true
        → Work s (after_idle_fire t s)
    flushes : 0 < s.due → Work s (after_flush s)
    takes :
        (b : Batch) (xs ys : List Batch) (t : Turn)
        → s.owner ≡ Owner.free
        → s.in_hand ≡ xs ++ b ∷ ys
        → Work s (record s {
          owner = Owner.compiling Caller.by_timer b t Phase.extracting;
          in_hand = xs ++ ys;
        })
    takes_drained :
        (b : Batch) (t : Turn)
        → s.owner ≡ Owner.free
        → s.stage ≡ Stage.drained b
        → Work s (record s {
          owner = Owner.compiling Caller.by_shutdown b t Phase.extracting;
          stage = Stage.in_batch;
        })
    runs :
        (who : Caller) (b : Batch) (t : Turn) (p : Phase)
        → s.owner ≡ Owner.compiling who b t p
        → Work s (after_phase who b t p s)
    takes_idle :
        (t : Turn)
        → s.owner ≡ Owner.free
        → 0 < s.idle_due
        → Work s (record s { owner = Owner.cycling t; idle_due = s.idle_due - 1 })
    runs_cycle : (t : Turn) → s.owner ≡ Owner.cycling t → Work s (after_cycle t s)
    rejects : s.stage ≡ Stage.claimed → Work s (after_reject s)
    drains : s.stage ≡ Stage.rejected → Work s (after_drain s)
    stops : s.stage ≡ Stage.compiled → Work s (after_stop s)
    takes_persist :
        s.owner ≡ Owner.free
        → s.stage ≡ Stage.unwatched
        → Work s (record s { owner = Owner.persisting; stage = Stage.in_persist })
    runs_persist :
        s.owner ≡ Owner.persisting → s.stage ≡ Stage.in_persist → Work s (after_persist s)
    finishes : s.stage ≡ Stage.persisted → Work s (after_finish s)

  -- A step of the system: work, a file event, or a call of `shutdown`, which claims the shutdown from
  -- RUNNING and returns at once otherwise.
  pub data Step (s : System) : System → Type 0 where
    works : {t : System} → Work s t → Step s t
    event : (c : FileChange) → Step s (after_queue c s)
    claims : s.daemon.state ≡ DaemonState.running → Step s (after_claim s)
    returns_at_once : s.daemon.state ≢ DaemonState.running → Step s s

  pub data Reach (s : System) : System → Type 0 where
    here : Reach s s
    next : {t u : System} → Reach s t → Step t u → Reach s u

  -- A running daemon whose watcher has seen nothing.
  pub record IsFresh (d : Daemon g) : Type 0 where
    pub running : d.state ≡ DaemonState.running
    pub accepting : d.watcher.rejecting_events ≡ false
    pub nothing : d.watcher.pending ≡ []
    pub no_timer : d.watcher.armed ≡ []
    pub no_idle_timer : d.watcher.idle_armed ≡ []

  abbrev pub begin : Daemon g → System
  begin d = record {
    daemon = d;
    due = 0;
    idle_due = 0;
    in_hand = [];
    owner = Owner.free;
    stage = Stage.unclaimed;
    accepted = [];
    history = [];
  }
