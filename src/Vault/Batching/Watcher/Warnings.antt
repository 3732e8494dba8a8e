-- ===== src/Vault/Batching/Watcher/Warnings.antt =====
-- vault_compiler/batching.py: at most one warning in an accumulation episode, and exactly when the
-- threshold is reached.
use graphify_daemon_portfoli.Prelude.{
  ℕ, ◌+◌, ◌≡◌, refl, arith, Bool, true, false, not, ◌&&◌, Option, List, [], ◌∷◌, ◌++◌, leb,
  if◌then◌else◌, length, length-append, append-nil, append_assoc,
}
use graphify_daemon_portfoli.Vault.Batching.{FileChange}
use graphify_daemon_portfoli.Vault.Batching.Watcher.{
  Watcher, init, queue_change, flush, drain_pending_batch, reject_new_events, stop, schedule_idle,
  cancel_idle, is_empty, warn_depth, restart_timer,
}
use graphify_daemon_portfoli.Vault.Batching.Watcher.Steps.{
  World, Step, queue, fire, flushes, drains, rejects, stops, schedules_idle, cancels_idle, Reach,
  here, next, start,
}
use graphify_daemon_portfoli.Lifecycle.Metrics.{Metrics}

-- Whether the changes of an episode have reached the threshold.
abbrev pub crossed : ℕ → List FileChange → Bool
crossed threshold pending = not (is_empty pending) && leb threshold (length pending)

-- The flag says exactly whether this episode has reached the threshold.
abbrev pub IsFlagged : Watcher → Type 0
IsFlagged w = w.warned_this_episode ≡ crossed w.pending_warn_threshold w.pending

not_empty : (p : List FileChange) (c : FileChange) → is_empty (p ++ c ∷ []) ≡ false
not_empty [] c = refl
not_empty (d ∷ p) c = refl

empty_length : (p : List FileChange) → is_empty p ≡ true → length p ≡ 0
empty_length [] h = refl
empty_length (c ∷ p) h = cc

pub queue_change-IsFlagged :
    (c : FileChange) (w : Watcher) → IsFlagged w → IsFlagged (queue_change c w)
unfolding queue_change warn_depth restart_timer
queue_change-IsFlagged c w h =
    ground (arith, not_empty w.pending c, length-append w.pending (c ∷ []), empty_length w.pending)

pub flush-IsFlagged : (w : Watcher) → IsFlagged w → IsFlagged (flush w).1
unfolding flush
flush-IsFlagged w h = ground arith

pub drain-IsFlagged : (w : Watcher) → IsFlagged w → IsFlagged (drain_pending_batch w).1
unfolding drain_pending_batch
drain-IsFlagged w h = ground arith

Step-IsFlagged : {s t : World} → Step s t → IsFlagged s.watcher → IsFlagged t.watcher
unfolding reject_new_events stop schedule_idle cancel_idle
Step-IsFlagged (queue w c) h = queue_change-IsFlagged c w.watcher h
Step-IsFlagged (flushes w e) h = flush-IsFlagged w.watcher h
Step-IsFlagged (drains w) h = drain-IsFlagged w.watcher h
Step-IsFlagged (fire w t e) h = h
Step-IsFlagged (rejects w) h = h
Step-IsFlagged (stops w) h = h
Step-IsFlagged (schedules_idle w) h = h
Step-IsFlagged (cancels_idle w) h = h

-- Whatever the threads do, the flag says exactly whether the current episode has reached the threshold.
Reach-IsFlagged :
    (threshold : ℕ) (metrics : Option Metrics) (w : World)
    → Reach (start threshold metrics) w
    → IsFlagged w.watcher
unfolding init
Reach-IsFlagged threshold metrics w here = refl
Reach-IsFlagged threshold metrics w (next {t} r st) =
    Step-IsFlagged st (Reach-IsFlagged threshold metrics t r)

-- The changes of one episode, queued in turn.
unfoldable pub queue_all : List FileChange → Watcher → Watcher
queue_all [] w = w
queue_all (c ∷ cs) w = queue_all cs (queue_change c w)

abbrev as_number : Bool → ℕ
as_number true = 1
as_number false = 0

warnings-queue :
    (c : FileChange) (w : Watcher)
    → w.rejecting_events ≡ false
    → IsFlagged w
    → (queue_change c w).warnings + as_number (crossed w.pending_warn_threshold w.pending)
      ≡ w.warnings + as_number (crossed w.pending_warn_threshold (w.pending ++ c ∷ []))
unfolding queue_change warn_depth restart_timer
warnings-queue c w r h =
    ground (arith, not_empty w.pending c, length-append w.pending (c ∷ []), empty_length w.pending)

kept-queue :
    (c : FileChange) (w : Watcher)
    → w.rejecting_events ≡ false
    → ((queue_change c w).rejecting_events ≡ false)
      × ((queue_change c w).pending_warn_threshold ≡ w.pending_warn_threshold)
      × ((queue_change c w).pending ≡ w.pending ++ c ∷ [])
unfolding queue_change warn_depth restart_timer
kept-queue c w r = ground arith

warnings-queue_all :
    (cs : List FileChange) (w : Watcher)
    → w.rejecting_events ≡ false
    → IsFlagged w
    → (queue_all cs w).warnings + as_number (crossed w.pending_warn_threshold w.pending)
      ≡ w.warnings + as_number (crossed w.pending_warn_threshold (w.pending ++ cs))
unfolding queue_all
warnings-queue_all [] w r h = ground (arith, append-nil w.pending)
warnings-queue_all (c ∷ cs) w r h = ground (
  arith,
  warnings-queue c w r h,
  kept-queue c w r,
  queue_change-IsFlagged c w h,
  warnings-queue_all cs (queue_change c w),
  append_assoc w.pending (c ∷ []) cs,
)

-- While the watcher accepts events, an episode that begins with nothing pending and no warning given
-- logs one warning if its changes reach the threshold, and none otherwise.
one_warning_per_episode :
    (cs : List FileChange) (w : Watcher)
    → w.rejecting_events ≡ false
    → w.pending ≡ []
    → w.warned_this_episode ≡ false
    → (queue_all cs w).warnings
      ≡ w.warnings + (if crossed w.pending_warn_threshold cs then 1 else 0)
one_warning_per_episode cs w r e f = ground (arith, warnings-queue_all cs w r)
