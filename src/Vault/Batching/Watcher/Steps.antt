-- ===== src/Vault/Batching/Watcher/Steps.antt =====
-- vault_compiler/batching.py: the watcher among its threads, as a step relation over every
-- interleaving of its methods.
use graphify_daemon_portfoli.Prelude.{
  ℕ, ◌+◌, ◌-◌, ◌<◌, ◌≡◌, Bool, true, false, Option, none, some, List, [], ◌∷◌, ◌++◌, ◌==◌, any,
  if◌then◌else◌,
}
use graphify_daemon_portfoli.Vault.Batching.{FileChange, Batch}
use graphify_daemon_portfoli.Vault.Batching.Watcher.{
  Watcher, init, queue_change, flush, drain_pending_batch, reject_new_events, stop, schedule_idle,
  cancel_idle, cancelled,
}
use graphify_daemon_portfoli.Lifecycle.Metrics.{Metrics}

pub record World : Type 0 where
  pub watcher : Watcher
  -- debounce timers that have fired, and whose `_flush` waits for the lock
  pub due : ℕ
  pub stopped : Bool
  -- the changes that `_queue_change` was given while the watcher accepted events
  pub accepted : List FileChange
  -- the batches that `_flush` and `drain_pending_batch` have taken, in order
  pub taken : List Batch

abbrev pub taken_by : Option Batch → List Batch → List Batch
taken_by none bs = bs
taken_by (some b) bs = bs ++ b ∷ []

abbrev pub start : ℕ → Option Metrics → World
start threshold metrics = record {
  watcher = init threshold metrics;
  due = 0;
  stopped = false;
  accepted = [];
  taken = [];
}

abbrev pub after_queue : FileChange → World → World
after_queue c w = record w {
  watcher = queue_change c w.watcher;
  accepted = if w.watcher.rejecting_events then w.accepted else w.accepted ++ c ∷ [];
}

abbrev pub after_fire : ℕ → World → World
after_fire t w = record w {
  watcher = record w.watcher { armed = cancelled t w.watcher.armed };
  due = w.due + 1;
}

abbrev pub after_flush : World → World
after_flush w = record w {
  watcher = (flush w.watcher).1;
  due = w.due - 1;
  taken = taken_by (flush w.watcher).0 w.taken;
}

abbrev pub after_drain : World → World
after_drain w = record w {
  watcher = (drain_pending_batch w.watcher).1;
  taken = taken_by (drain_pending_batch w.watcher).0 w.taken;
}

-- One step of some thread.
pub data Step : World → World → Type 0 where
  queue : (w : World) (c : FileChange) → Step w (after_queue c w)
  fire : (w : World) (t : ℕ) → any (λ u. u == t) w.watcher.armed ≡ true → Step w (after_fire t w)
  flushes : (w : World) → 0 < w.due → Step w (after_flush w)
  drains : (w : World) → Step w (after_drain w)
  rejects : (w : World) → Step w (record w { watcher = reject_new_events w.watcher })
  stops : (w : World) → Step w (record w { watcher = stop w.watcher; stopped = true })
  schedules_idle : (w : World) → Step w (record w { watcher = schedule_idle w.watcher })
  cancels_idle : (w : World) → Step w (record w { watcher = cancel_idle w.watcher })

pub data Reach (s : World) : World → Type 0 where
  here : Reach s s
  next : {t u : World} → Reach s t → Step t u → Reach s u

-- Steps of the runtime's timers only: a running timer fires, or the `_flush` of one that has fired runs.
pub data ByTimers (s : World) : World → Type 0 where
  still : ByTimers s s
  fired :
      {w : World}
      → ByTimers s w
      → (t : ℕ) → any (λ u. u == t) w.watcher.armed ≡ true
      → ByTimers s (after_fire t w)
  flushed : {w : World} → ByTimers s w → 0 < w.due → ByTimers s (after_flush w)
