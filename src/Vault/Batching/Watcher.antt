-- ===== src/Vault/Batching/Watcher.antt =====
-- vault_compiler/batching.py: `VaultWatcher`. Every method body runs under the watcher's lock, so a
-- method is one step. A `threading.Timer` is a number; `armed` and `idle_armed` are the timers that
-- are started and neither cancelled nor fired. The handler's calls of `_queue_change` come from the
-- observer's thread, those of `_flush` from timer threads.
pub mod Steps
pub mod Delivery
pub mod Warnings
use graphify_daemon_portfoli.Prelude.{
  ℕ, ◌+◌, Bool, true, false, not, ◌&&◌, Option, none, some, List, [], ◌∷◌, ◌++◌, leb, ◌==◌,
  if◌then◌else◌, length,
}
use graphify_daemon_portfoli.Lifecycle.Metrics.{Metrics, when_given, set_gauge, increment}
use graphify_daemon_portfoli.Vault.Batching.{FileChange, Batch}

abbrev pub default_pending_warn_threshold : ℕ
default_pending_warn_threshold = 200

pub record Watcher : Type 0 where
  pub pending : List FileChange
  pub timer : Option ℕ
  pub idle_timer : Option ℕ
  pub rejecting_events : Bool
  pub warned_this_episode : Bool
  pub pending_warn_threshold : ℕ
  pub metrics : Option Metrics
  -- the lines that `_queue_change` has logged
  pub warnings : ℕ
  -- the runtime's timers: those running, and the number of the next one
  pub armed : List ℕ
  pub idle_armed : List ℕ
  pub next_timer : ℕ

unfoldable pub init : ℕ → Option Metrics → Watcher
init pending_warn_threshold metrics = record {
  pending = [];
  timer = none;
  idle_timer = none;
  rejecting_events = false;
  warned_this_episode = false;
  pending_warn_threshold = pending_warn_threshold;
  metrics = metrics;
  warnings = 0;
  armed = [];
  idle_armed = [];
  next_timer = 0;
}

-- A timer that no longer runs. Cancelling one that has fired changes nothing.
abbrev pub cancelled : ℕ → List ℕ → List ℕ
cancelled t [] = []
cancelled t (u ∷ us) = if u == t then cancelled t us else u ∷ cancelled t us

-- `if timer is not None: timer.cancel()`
abbrev pub cancel : Option ℕ → List ℕ → List ℕ
cancel none armed = armed
cancel (some t) armed = cancelled t armed

abbrev pub is_empty : List FileChange → Bool
is_empty [] = true
is_empty (c ∷ cs) = false

unfoldable pub schedule_idle : Watcher → Watcher
schedule_idle w = record w {
  idle_armed = cancel w.idle_timer w.idle_armed ++ w.next_timer ∷ [];
  idle_timer = some w.next_timer;
  next_timer = w.next_timer + 1;
}

unfoldable pub cancel_idle : Watcher → Watcher
cancel_idle w = record w { idle_armed = cancel w.idle_timer w.idle_armed; idle_timer = none }

unfoldable pub reject_new_events : Watcher → Watcher
reject_new_events w = record w { rejecting_events = true }

-- `stop`: the part under the lock
unfoldable pub stop : Watcher → Watcher
stop w = record w {
  armed = cancel w.timer w.armed;
  timer = none;
  idle_armed = cancel w.idle_timer w.idle_armed;
  idle_timer = none;
}

-- What `_flush` and `drain_pending_batch` do to a pending list that is not empty.
abbrev pub take_pending : Watcher → Watcher
take_pending w = record w {
  pending = [];
  warned_this_episode = false;
  metrics = when_given (set_gauge "queue_depth" 0) w.metrics;
}

unfoldable pub drain_pending_batch : Watcher → Option Batch × Watcher
unfolding stop
drain_pending_batch w =
    let w' = stop w in
    if is_empty w.pending
    then (none, w')
    else (some (record { changes = w.pending }), take_pending w')

-- `_flush`: the batch that it hands to `on_batch`, if any. Its timer has fired, so it runs no more.
unfoldable pub flush : Watcher → Option Batch × Watcher
flush w =
    if is_empty w.pending
    then (none, w)
    else (some (record { changes = w.pending }), record (take_pending w) { timer = none })

-- The warning of `_queue_change`, once in an episode.
unfoldable pub warn_depth : Watcher → Watcher
warn_depth w =
    if leb w.pending_warn_threshold (length w.pending) && not w.warned_this_episode
    then record w {
      warnings = w.warnings + 1;
      metrics = when_given (increment "queue_depth_warnings" 1) w.metrics;
      warned_this_episode = true;
    }
    else w

-- A new debounce timer in place of the old one.
unfoldable pub restart_timer : Watcher → Watcher
restart_timer w = record w {
  armed = cancel w.timer w.armed ++ w.next_timer ∷ [];
  timer = some w.next_timer;
  next_timer = w.next_timer + 1;
}

unfoldable pub queue_change : FileChange → Watcher → Watcher
unfolding warn_depth restart_timer
queue_change change w =
    if w.rejecting_events
    then w
    else let pending = w.pending ++ change ∷ [] in
      restart_timer (
        warn_depth (record w {
          pending = pending;
          metrics = when_given (set_gauge "queue_depth" (length pending)) w.metrics;
        }))
