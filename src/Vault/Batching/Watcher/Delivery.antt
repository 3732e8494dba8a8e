-- ===== src/Vault/Batching/Watcher/Delivery.antt =====
-- vault_compiler/batching.py: no change that the watcher accepts is lost, doubled or reordered,
-- whatever the interleaving of its threads, and a pending change is always about to be flushed.
use graphify_daemon_portfoli.Prelude.{
  ℕ, ◌<◌, ◌≡◌, refl, sym, ap, ◌∙◌, ◌⊎◌, inl, inr, arith, true, false, Option, some, List, [], ◌∷◌,
  ◌++◌, ◌==◌, any, if◌then◌else◌, append-nil, append_assoc, Bool-cases,
}
use graphify_daemon_portfoli.Vault.Batching.{FileChange, Batch}
use graphify_daemon_portfoli.Vault.Batching.Watcher.{
  Watcher, init, queue_change, flush, drain_pending_batch, reject_new_events, stop, schedule_idle,
  cancel_idle, cancel, cancelled, is_empty, warn_depth, restart_timer,
}
use graphify_daemon_portfoli.Vault.Batching.Watcher.Steps.{
  World, Step, queue, fire, flushes, drains, rejects, stops, schedules_idle, cancels_idle, Reach,
  ByTimers, still, fired, flushed, here, next, start, taken_by, after_fire, after_flush,
  after_drain,
}
use graphify_daemon_portfoli.Lifecycle.Metrics.{Metrics}

-- All changes of some batches, in order.
unfoldable pub changes_of : List Batch → List FileChange
changes_of [] = []
changes_of (b ∷ bs) = b.changes ++ changes_of bs

changes_of-append :
    (bs : List Batch) (b : Batch) → changes_of (bs ++ b ∷ []) ≡ changes_of bs ++ b.changes
unfolding changes_of
changes_of-append [] b = append-nil b.changes
changes_of-append (a ∷ bs) b = simp (changes_of-append bs b, append_assoc)

-- Every accepted change stands in exactly one taken batch or is pending, in the order of acceptance.
abbrev pub IsConserved : World → Type 0
IsConserved w = changes_of w.taken ++ w.watcher.pending ≡ w.accepted

-- While the watcher has not been stopped, pending changes have a running timer or a flush that waits.
abbrev pub IsScheduled : World → Type 0
IsScheduled w =
    (w.watcher.pending ≡ [])
    ⊎ (w.stopped ≡ true)
    ⊎ (0 < w.due)
    ⊎ ((t : ℕ) × (w.watcher.timer ≡ some t) × (any (λ u. u == t) w.watcher.armed ≡ true))

pub pending-queue :
    (c : FileChange) (w : Watcher)
    → (queue_change c w).pending ≡ (if w.rejecting_events then w.pending else w.pending ++ c ∷ [])
unfolding queue_change warn_depth restart_timer
pending-queue c w = ground arith

pub empty_list : (p : List FileChange) → is_empty p ≡ true → p ≡ []
empty_list [] h = refl
empty_list (c ∷ p) h = cc

-- A flush and a drain leave nothing pending, and what was pending is in the batch that they take.
pub pending-flush : (w : Watcher) → (flush w).1.pending ≡ []
unfolding flush
pending-flush w = ground (arith, empty_list w.pending)

taken-flush :
    (w : Watcher) (bs : List Batch)
    → changes_of (taken_by (flush w).0 bs) ≡ changes_of bs ++ w.pending
unfolding flush
taken-flush w bs = ground (
  arith,
  empty_list w.pending,
  append-nil (changes_of bs),
  changes_of-append bs (record { changes = w.pending }),
)

pub pending-drain : (w : Watcher) → (drain_pending_batch w).1.pending ≡ []
unfolding drain_pending_batch
pending-drain w = ground (arith, empty_list w.pending)

taken-drain :
    (w : Watcher) (bs : List Batch)
    → changes_of (taken_by (drain_pending_batch w).0 bs) ≡ changes_of bs ++ w.pending
unfolding drain_pending_batch
taken-drain w bs = ground (
  arith,
  empty_list w.pending,
  append-nil (changes_of bs),
  changes_of-append bs (record { changes = w.pending }),
)

Step-IsConserved : {s t : World} → Step s t → IsConserved s → IsConserved t
unfolding reject_new_events stop schedule_idle cancel_idle
Step-IsConserved (queue w c) h =
    ground (
      arith,
      pending-queue c w.watcher,
      append_assoc (changes_of w.taken) w.watcher.pending (c ∷ []),
    )
Step-IsConserved (fire w t e) h = h
Step-IsConserved (flushes w e) h =
    simp (taken-flush w.watcher w.taken, pending-flush w.watcher, append-nil) h
Step-IsConserved (drains w) h =
    simp (taken-drain w.watcher w.taken, pending-drain w.watcher, append-nil) h
Step-IsConserved (rejects w) h = h
Step-IsConserved (stops w) h = h
Step-IsConserved (schedules_idle w) h = h
Step-IsConserved (cancels_idle w) h = h

Reach-IsConserved : {s t : World} → Reach s t → IsConserved s → IsConserved t
Reach-IsConserved here h = h
Reach-IsConserved (next r st) h = Step-IsConserved st (Reach-IsConserved r h)

-- However the threads interleave: the batches taken so far, followed by what is pending, are the
-- accepted changes, each once and in the order of acceptance.
pub nothing_lost :
    (threshold : ℕ) (metrics : Option Metrics) (w : World)
    → Reach (start threshold metrics) w
    → changes_of w.taken ++ w.watcher.pending ≡ w.accepted
unfolding changes_of init
nothing_lost threshold metrics w r = Reach-IsConserved r refl

running_last : (t : ℕ) (us : List ℕ) → any (λ u. u == t) (us ++ t ∷ []) ≡ true
running_last t [] = ground arith
running_last t (u ∷ us) = ground (arith, running_last t us)

-- Cancelling or firing another timer leaves a timer running.
still_running :
    (t v : ℕ) (us : List ℕ)
    → (v == t) ≡ false
    → any (λ u. u == t) us ≡ true
    → any (λ u. u == t) (cancelled v us) ≡ true
still_running t v [] h k = cc
still_running t v (u ∷ us) h k = ground (arith, still_running t v us)

pub scheduled-queue :
    (c : FileChange) (w : Watcher)
    → w.rejecting_events ≡ false
    → (t : ℕ) × ((queue_change c w).timer ≡ some t)
      × (any (λ u. u == t) (queue_change c w).armed ≡ true)
unfolding queue_change restart_timer warn_depth
scheduled-queue c w h =
    (w.next_timer, ground arith, ground (arith, running_last w.next_timer (cancel w.timer w.armed)))

pub queue_rejected :
    (c : FileChange) (w : Watcher) → w.rejecting_events ≡ true → queue_change c w ≡ w
unfolding queue_change
queue_rejected c w h = ground arith

Step-IsScheduled : {s t : World} → Step s t → IsScheduled s → IsScheduled t
unfolding reject_new_events stop schedule_idle cancel_idle
Step-IsScheduled (queue w c) h = elim (Bool-cases w.watcher.rejecting_events) [
  | inl off ↦ rw (queue_rejected c w.watcher off) h
  | inr on ↦ inr (inr (inr (scheduled-queue c w.watcher on)))
]
Step-IsScheduled (fire w t e) (inl h) = inl h
Step-IsScheduled (fire w t e) (inr (inl h)) = inr (inl h)
Step-IsScheduled (fire w t e) (inr (inr h)) = inr (inr (inl (omega arith)))
Step-IsScheduled (flushes w e) h = inl (pending-flush w.watcher)
Step-IsScheduled (drains w) h = inl (pending-drain w.watcher)
Step-IsScheduled (rejects w) h = h
Step-IsScheduled (stops w) h = inr (inl refl)
Step-IsScheduled (schedules_idle w) h = h
Step-IsScheduled (cancels_idle w) h = h

Reach-IsScheduled : {s t : World} → Reach s t → IsScheduled s → IsScheduled t
Reach-IsScheduled here h = h
Reach-IsScheduled (next r st) h = Step-IsScheduled st (Reach-IsScheduled r h)

-- From every reachable state whose watcher is not stopped, timers that are running or have fired lead,
-- with no other step, to a state in which nothing is pending and the taken batches have grown by
-- exactly what was pending.
always_flushable :
    (threshold : ℕ) (metrics : Option Metrics) (w : World)
    → Reach (start threshold metrics) w
    → w.stopped ≡ false
    → (v : World) × ByTimers w v
      × (v.watcher.pending ≡ [])
      × (changes_of v.taken ≡ changes_of w.taken ++ w.watcher.pending)
unfolding init
always_flushable threshold metrics w r live = from (Reach-IsScheduled r (inl refl))
  where
    from :
        IsScheduled w
        → (v : World) × ByTimers w v
          × (v.watcher.pending ≡ [])
          × (changes_of v.taken ≡ changes_of w.taken ++ w.watcher.pending)
    from (inl e) = (w, still, e, rw e (sym (append-nil (changes_of w.taken))))
    from (inr (inl stop)) = absurd (cc)
    from (inr (inr (inl due))) =
        (after_flush w, flushed still due, pending-flush w.watcher, taken-flush w.watcher w.taken)
    from (inr (inr (inr (t, e, running)))) =
        let v = after_fire t w in
        (
          after_flush v,
          flushed (fired still t running) (omega arith),
          pending-flush v.watcher,
          taken-flush v.watcher v.taken,
        )

-- The watcher rejects events, and has accepted these changes.
record IsRejecting (accepted : List FileChange) (w : World) : Type 0 where
  rejecting : w.watcher.rejecting_events ≡ true
  same : w.accepted ≡ accepted

pub rejecting-flush : (w : Watcher) → (flush w).1.rejecting_events ≡ w.rejecting_events
unfolding flush
rejecting-flush w = ground arith

pub rejecting-drain :
    (w : Watcher) → (drain_pending_batch w).1.rejecting_events ≡ w.rejecting_events
unfolding drain_pending_batch
rejecting-drain w = ground arith

Step-IsRejecting :
    {a : List FileChange} {s t : World} → Step s t → IsRejecting a s → IsRejecting a t
unfolding reject_new_events stop schedule_idle cancel_idle
Step-IsRejecting (queue w c) h = ground (arith, queue_rejected c w.watcher, h.rejecting, h.same)
Step-IsRejecting (flushes w e) h = record {
  rejecting = rejecting-flush w.watcher ∙ h.rejecting;
  same = h.same;
}
Step-IsRejecting (drains w) h = record {
  rejecting = rejecting-drain w.watcher ∙ h.rejecting;
  same = h.same;
}
Step-IsRejecting (rejects w) h = record { rejecting = refl; same = h.same }
Step-IsRejecting (fire w t e) h = record { rejecting = h.rejecting; same = h.same }
Step-IsRejecting (stops w) h = record { rejecting = h.rejecting; same = h.same }
Step-IsRejecting (schedules_idle w) h = record { rejecting = h.rejecting; same = h.same }
Step-IsRejecting (cancels_idle w) h = record { rejecting = h.rejecting; same = h.same }

Reach-IsRejecting :
    {a : List FileChange} {s t : World} → Reach s t → IsRejecting a s → IsRejecting a t
Reach-IsRejecting here h = h
Reach-IsRejecting (next r st) h = Step-IsRejecting st (Reach-IsRejecting r h)

-- A step of a watcher that rejects events leaves nothing pending, if nothing was.
Step-stays_empty :
    {s t : World}
    → Step s t
    → s.watcher.rejecting_events ≡ true
    → s.watcher.pending ≡ []
    → t.watcher.pending ≡ []
unfolding reject_new_events stop schedule_idle cancel_idle
Step-stays_empty (queue w c) r h = ground (arith, queue_rejected c w.watcher r)
Step-stays_empty (flushes w e) r h = pending-flush w.watcher
Step-stays_empty (drains w) r h = pending-drain w.watcher
Step-stays_empty (fire w t e) r h = h
Step-stays_empty (rejects w) r h = h
Step-stays_empty (stops w) r h = h
Step-stays_empty (schedules_idle w) r h = h
Step-stays_empty (cancels_idle w) r h = h

Reach-stays_empty :
    {a : List FileChange} {s t : World}
    → Reach s t
    → IsRejecting a s
    → s.watcher.pending ≡ []
    → t.watcher.pending ≡ []
Reach-stays_empty here r h = h
Reach-stays_empty (next q st) r h =
    Step-stays_empty st (Reach-IsRejecting q r).rejecting (Reach-stays_empty q r h)

-- The shutdown rejects new events, and some steps later drains. From then on, whatever the threads do,
-- nothing is pending, nothing was accepted after the rejection, and the taken batches hold every change
-- that was ever accepted, in order.
pub drained_for_good :
    (threshold : ℕ) (metrics : Option Metrics) (w u v : World)
    → Reach (start threshold metrics) w
    → Reach (record w { watcher = reject_new_events w.watcher }) u
    → Reach (after_drain u) v
    → (v.watcher.pending ≡ []) × (v.accepted ≡ w.accepted) × (changes_of v.taken ≡ w.accepted)
unfolding changes_of init reject_new_events
drained_for_good threshold metrics w u v r q s = (empty, off.same, whole)
  where
    drained : IsRejecting w.accepted (after_drain u)
    drained =
        Step-IsRejecting (drains u) (Reach-IsRejecting q (record { rejecting = refl; same = refl }))

    off : IsRejecting w.accepted v
    off = Reach-IsRejecting s drained

    empty : v.watcher.pending ≡ []
    empty = Reach-stays_empty s drained (pending-drain u.watcher)

    kept : IsConserved v
    kept = Reach-IsConserved s (
        Step-IsConserved (drains u)
          (Reach-IsConserved q (Step-IsConserved (rejects w) (Reach-IsConserved r refl))))

    whole : changes_of v.taken ≡ w.accepted
    whole =
        sym (append-nil (changes_of v.taken))
        ∙ ap (λ p. changes_of v.taken ++ p) (sym empty)
        ∙ kept
        ∙ off.same
