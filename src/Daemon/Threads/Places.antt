-- ===== src/Daemon/Threads/Places.antt =====
-- daemon.py and shutdown.py: what the place of the shutdown's thread says of the lock, the lifecycle state,
-- the watcher and the artifacts.
pub mod Compiling
pub mod Reached
use graphify_daemon_portfoli.Prelude.{
  ℕ, ◌+◌, ◌≡◌, refl, sym, ◌∙◌, arith, Bool, true, false, Option, none, some, List, [], ◌∷◌, ◌++◌,
  if◌then◌else◌, Option-cases, inl, inr, leb, ◌==◌, tests, ap,
}
use graphify_daemon_portfoli.Prelude.Exec.{Result, ok, raise}
use graphify_daemon_portfoli.Vault.Batching.{FileChange, Batch}
use graphify_daemon_portfoli.Vault.Batching.Watcher.{
  Watcher, queue_change, flush, drain_pending_batch, reject_new_events, stop, warn_depth,
  restart_timer,
}
use graphify_daemon_portfoli.Vault.Batching.Watcher.Delivery.{
  pending-queue, pending-flush, pending-drain, rejecting-flush, rejecting-drain,
}
use graphify_daemon_portfoli.Graphify.{Graphify}
use graphify_daemon_portfoli.Daemon.{
  DaemonState, Daemon, persist_on_shutdown, on_idle_cadence, run_cycle,
}
use graphify_daemon_portfoli.Daemon.Threads.{
  Turn, Caller, Phase, following, Owner, Stage, Event, after_drained, handed, System, Work, Step,
  Reach, here, next, begin, run_phase, continue, release, after_fire, after_idle_fire, after_queue,
  after_flush, after_phase, after_cycle, after_claim, after_reject, after_drain, after_stop,
  after_persist, after_finish, returned, IsFresh, fires, fires_idle, flushes, takes, takes_drained,
  runs, takes_idle, runs_cycle, rejects, drains, stops, takes_persist, runs_persist, finishes,
  works, event, claims, returns_at_once,
}
use graphify_daemon_portfoli.Daemon.Threads.Watch.{
  IsUntouched, phase-state, phase-IsUntouched, cycle-IsUntouched,
}

abbrev compiles_drained : Owner → Bool
compiles_drained Owner.free = false
compiles_drained Owner.persisting = false
compiles_drained (Owner.cycling t) = false
compiles_drained (Owner.compiling Caller.by_timer b t p) = false
compiles_drained (Owner.compiling Caller.by_shutdown b t p) = true

abbrev is_persisting : Owner → Bool
is_persisting Owner.free = false
is_persisting Owner.persisting = true
is_persisting (Owner.cycling t) = false
is_persisting (Owner.compiling who b t p) = false

-- The places of the shutdown in the order of its code. A compilation that raises ends it at 5.
unfoldable pub place : Stage → ℕ
place Stage.unclaimed = 0
place Stage.claimed = 1
place Stage.rejected = 2
place (Stage.drained b) = 3
place Stage.in_batch = 4
place (Stage.failed e) = 5
place Stage.compiled = 6
place Stage.unwatched = 7
place Stage.in_persist = 8
place Stage.persisted = 9
place Stage.finished = 10

unfoldable pub state_at : Stage → DaemonState
state_at Stage.unclaimed = DaemonState.running
state_at Stage.claimed = DaemonState.stopping
state_at Stage.rejected = DaemonState.stopping
state_at (Stage.drained b) = DaemonState.stopping
state_at Stage.in_batch = DaemonState.stopping
state_at (Stage.failed e) = DaemonState.stopping
state_at Stage.compiled = DaemonState.stopping
state_at Stage.unwatched = DaemonState.stopping
state_at Stage.in_persist = DaemonState.stopping
state_at Stage.persisted = DaemonState.stopping
state_at Stage.finished = DaemonState.stopped

-- How often the artifacts were persisted for a shutdown.
unfoldable pub persists_in : List Event → ℕ
persists_in [] = 0
persists_in (Event.compiles b t ∷ es) = persists_in es
persists_in (Event.cycles t ∷ es) = persists_in es
persists_in (Event.persists ∷ es) = persists_in es + 1

persists-append :
    (es : List Event) (e : Event)
    → persists_in (es ++ e ∷ []) ≡ persists_in es + persists_in (e ∷ [])
unfolding persists_in
persists-append [] e = omega arith
persists-append (Event.compiles b t ∷ es) e = persists-append es e
persists-append (Event.cycles t ∷ es) e = persists-append es e
persists-append (Event.persists ∷ es) e = omega (arith, persists-append es e)

at_least_2 : (n : ℕ) → leb 3 n ≡ true → leb 2 n ≡ true
at_least_2 n h = ground arith

module _ (g : Graphify) where
  pub record IsPlaced (s : System g) : Type 0 where
    pub in_batch : compiles_drained s.owner ≡ (place s.stage == 4)
    pub in_persist : is_persisting s.owner ≡ (place s.stage == 8)
    pub state : s.daemon.state ≡ state_at s.stage
    pub rejecting : s.daemon.watcher.rejecting_events ≡ leb 2 (place s.stage)
    pub emptied : leb 3 (place s.stage) ≡ true → s.daemon.watcher.pending ≡ []
    pub persisted : persists_in s.history ≡ (if leb 9 (place s.stage) then 1 else 0)

  -- A step that moves neither the shutdown nor what it waits for.
  keeps :
      (s t : System g)
      → IsPlaced s
      → compiles_drained t.owner ≡ compiles_drained s.owner
      → is_persisting t.owner ≡ is_persisting s.owner
      → t.stage ≡ s.stage
      → t.daemon.state ≡ s.daemon.state
      → t.daemon.watcher.rejecting_events ≡ s.daemon.watcher.rejecting_events
      → (s.daemon.watcher.pending ≡ []
          → s.daemon.watcher.rejecting_events ≡ true
          → t.daemon.watcher.pending ≡ [])
      → persists_in t.history ≡ persists_in s.history
      → IsPlaced t
  keeps s t i o q st ds r p h = record {
    in_batch = rw (o, st) i.in_batch;
    in_persist = rw (q, st) i.in_persist;
    state = rw (ds, st) i.state;
    rejecting = rw (r, st) i.rejecting;
    emptied = λ e.
        let late = ap (λ x. leb 3 (place x)) (sym st) ∙ e in
        p (i.emptied late) (i.rejecting ∙ at_least_2 (place s.stage) late);
    persisted = rw (h, st) i.persisted;
  }
