-- ===== src/Daemon/Threads/Watch.antt =====
-- daemon.py: what a part of a body under the coordinator's lock leaves alone: the pending changes, the
-- debounce timers and the lifecycle state.
use graphify_daemon_portfoli.Prelude.{
  ℕ, ◌+◌, ◌≤◌, ◌<◌, ◌≡◌, refl, arith, true, Option, none, some, List, [], ◌∷◌, ◌==◌, any, length,
  length-append,
}
use graphify_daemon_portfoli.Vault.Batching.{Batch}
use graphify_daemon_portfoli.Vault.Batching.Watcher.{
  Watcher, schedule_idle, cancel_idle, cancel, cancelled,
}
use graphify_daemon_portfoli.Graphify.{Graphify}
use graphify_daemon_portfoli.Compiler.Clustering.{Schedule}
use graphify_daemon_portfoli.Daemon.{
  Daemon, extract_step, sync_step, publish_step, cadence_step, run_cycle, on_idle_cadence,
}
use graphify_daemon_portfoli.Daemon.Threads.{Turn, Phase, run_phase}

shorter : (t : ℕ) (us : List ℕ) → length (cancelled t us) ≤ length us
shorter t [] = omega arith
shorter t (u ∷ us) = ground (arith, shorter t us)

-- A timer that has fired runs no more.
pub cancelled_shorter :
    (t : ℕ) (us : List ℕ) → any (λ u. u == t) us ≡ true → length (cancelled t us) < length us
cancelled_shorter t [] h = cc
cancelled_shorter t (u ∷ us) h = ground (arith, shorter t us, cancelled_shorter t us)

pub cancel_shorter : (o : Option ℕ) (us : List ℕ) → length (cancel o us) ≤ length us
cancel_shorter none us = omega arith
cancel_shorter (some t) us = shorter t us

-- The parts of the watcher that no compilation touches.
pub record IsUntouched (w w' : Watcher) : Type 0 where
  pub pending : w'.pending ≡ w.pending
  pub timer : w'.timer ≡ w.timer
  pub armed : w'.armed ≡ w.armed
  pub rejecting : w'.rejecting_events ≡ w.rejecting_events

-- How many idle timers may run after a part of a compilation: only its end schedules one.
abbrev pub scheduled_by : Phase → ℕ
scheduled_by Phase.noting = 1
scheduled_by Phase.extracting = 0
scheduled_by Phase.syncing = 0
scheduled_by Phase.publishing = 0

module _ (g : Graphify) where
  pub phase-state :
      (p : Phase) (b : Batch) (t : Turn) (d : Daemon g) → (run_phase g p b t d).1.state ≡ d.state
  unfolding run_phase extract_step sync_step publish_step cadence_step run_cycle
  phase-state Phase.extracting b t d = ground arith
  phase-state Phase.syncing b t d = ground arith
  phase-state Phase.publishing b t d = ground arith
  phase-state Phase.noting b t d = ground arith

  cadence-IsUntouched :
      (b : Batch) (t : Turn) (d : Daemon g)
      → IsUntouched d.watcher (cadence_step g t.files t.schedule t.moment b d).watcher
  unfolding cadence_step run_cycle schedule_idle cancel_idle
  cadence-IsUntouched b t d = record {
    pending = ground arith;
    timer = ground arith;
    armed = ground arith;
    rejecting = ground arith;
  }

  pub phase-IsUntouched :
      (p : Phase) (b : Batch) (t : Turn) (d : Daemon g)
      → IsUntouched d.watcher (run_phase g p b t d).1.watcher
  unfolding run_phase extract_step sync_step publish_step
  phase-IsUntouched Phase.extracting b t d = record {
    pending = refl;
    timer = refl;
    armed = refl;
    rejecting = refl;
  }
  phase-IsUntouched Phase.syncing b t d = record {
    pending = refl;
    timer = refl;
    armed = refl;
    rejecting = refl;
  }
  phase-IsUntouched Phase.publishing b t d = record {
    pending = ground arith;
    timer = ground arith;
    armed = ground arith;
    rejecting = ground arith;
  }
  phase-IsUntouched Phase.noting b t d = cadence-IsUntouched b t d

  pub cycle-IsUntouched :
      (schedule : Schedule) (asked ended : ℕ) (d : Daemon g)
      → IsUntouched d.watcher (on_idle_cadence g schedule asked ended d).watcher
  unfolding on_idle_cadence run_cycle
  cycle-IsUntouched schedule asked ended d = record {
    pending = refl;
    timer = refl;
    armed = refl;
    rejecting = refl;
  }

  pub idle-phase :
      (p : Phase) (b : Batch) (t : Turn) (d : Daemon g)
      → length (run_phase g p b t d).1.watcher.idle_armed
        ≤ length d.watcher.idle_armed + scheduled_by p
  unfolding run_phase extract_step sync_step publish_step cadence_step run_cycle schedule_idle
      cancel_idle
  idle-phase Phase.extracting b t d = omega arith
  idle-phase Phase.syncing b t d = omega arith
  idle-phase Phase.publishing b t d = ground arith
  idle-phase Phase.noting b t d = ground (
    arith,
    cancel_shorter d.watcher.idle_timer d.watcher.idle_armed,
    length-append (cancel d.watcher.idle_timer d.watcher.idle_armed) (d.watcher.next_timer ∷ []),
  )

  pub idle-cycle :
      (schedule : Schedule) (asked ended : ℕ) (d : Daemon g)
      → (on_idle_cadence g schedule asked ended d).watcher.idle_armed ≡ d.watcher.idle_armed
  unfolding on_idle_cadence run_cycle
  idle-cycle schedule asked ended d = refl
