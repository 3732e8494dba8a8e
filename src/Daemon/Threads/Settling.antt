-- ===== src/Daemon/Threads/Settling.antt =====
-- daemon.py and batching.py: the states in which no thread has work, and why nothing is pending there.
pub mod Rest
use graphify_daemon_portfoli.Prelude.{
  ℕ, ◌+◌, ◌-◌, ◌≤◌, ◌<◌, ◌≡◌, refl, sym, ◌∙◌, ◌⊎◌, inl, inr, arith, Bool, true, false, Option, none,
  some, List, [], ◌∷◌, ◌++◌, ◌==◌, any, if◌then◌else◌, length, Bool-cases,
}
use graphify_daemon_portfoli.Prelude.Exec.{Error, Result, ok, raise}
use graphify_daemon_portfoli.Vault.Batching.{FileChange, Batch}
use graphify_daemon_portfoli.Vault.Batching.Watcher.{
  Watcher, queue_change, flush, drain_pending_batch, reject_new_events, stop,
}
use graphify_daemon_portfoli.Vault.Batching.Watcher.Delivery.{
  changes_of, pending-flush, pending-drain, scheduled-queue, queue_rejected,
}
use graphify_daemon_portfoli.Graphify.{Graphify}
use graphify_daemon_portfoli.Daemon.{DaemonState, Daemon, persist_on_shutdown}
use graphify_daemon_portfoli.Daemon.Threads.{
  Turn, Caller, Phase, following, Owner, Stage, Event, System, Work, Step, Reach, here, next, begin,
  run_phase, continue, IsFresh, after_queue, after_phase, fires, fires_idle, flushes, takes,
  takes_drained, runs, takes_idle, runs_cycle, rejects, drains, stops, takes_persist, runs_persist,
  finishes, works, event, claims, returns_at_once, after_cycle,
}
use graphify_daemon_portfoli.Daemon.Threads.Watch.{
  IsUntouched, phase-IsUntouched, cycle-IsUntouched,
}
use graphify_daemon_portfoli.Daemon.Threads.Places.{IsPlaced, place, state_at, persists_in}
use graphify_daemon_portfoli.Daemon.Threads.Places.Reached.{
  first_claim, begin-IsPlaced, Step-IsPlaced, Reach-IsPlaced,
}
use graphify_daemon_portfoli.Daemon.Threads.Accounting.{accounted}
use graphify_daemon_portfoli.Daemon.Threads.Accounting.Tally.{tally, compiled_of}
use graphify_daemon_portfoli.Daemon.Threads.Progress.{work_left, Works, still, later, Work-shrinks}

-- A place at which the thread that shuts down, if any, has ended.
abbrev pub Ended : Stage → Type 0
Ended st = (st ≡ Stage.unclaimed) ⊎ (st ≡ Stage.finished) ⊎ ((e : Error) × (st ≡ Stage.failed e))

module _ (g : Graphify) where
  -- No thread has anything to do: no lock is held, no timer runs or has fired, no batch is in hand, and no
  -- shutdown is on its way.
  pub record IsQuiet (s : System g) : Type 0 where
    pub owner : s.owner ≡ Owner.free
    pub in_hand : s.in_hand ≡ []
    pub due : s.due ≡ 0
    pub idle_due : s.idle_due ≡ 0
    pub armed : s.daemon.watcher.armed ≡ []
    pub idle_armed : s.daemon.watcher.idle_armed ≡ []
    pub ended : Ended s.stage

  -- Pending changes have a debounce timer that runs, or a flush that waits.
  abbrev pub IsScheduled : System g → Type 0
  IsScheduled s =
      (s.daemon.watcher.pending ≡ [])
      ⊎ (0 < s.due)
      ⊎ ((t : ℕ) × (s.daemon.watcher.timer ≡ some t)
          × (any (λ u. u == t) s.daemon.watcher.armed ≡ true))

  IsScheduled-untouched :
      (s t : System g)
      → IsUntouched s.daemon.watcher t.daemon.watcher
      → t.due ≡ s.due
      → IsScheduled s
      → IsScheduled t
  IsScheduled-untouched s t u e (inl h) = inl (u.pending ∙ h)
  IsScheduled-untouched s t u e (inr (inl h)) = inr (inl (rw e h))
  IsScheduled-untouched s t u e (inr (inr (v, h, k))) =
      inr (inr (v, u.timer ∙ h, ground (arith, u.armed, k)))

  IsUntouched-refl : (w : Watcher) → IsUntouched w w
  IsUntouched-refl w = record { pending = refl; timer = refl; armed = refl; rejecting = refl }

  continue-watcher :
      (who : Caller) (b : Batch) (t : Turn) (q : Option Phase) (r : Result (Unit {0}))
      (s : System g)
      → ((continue g who b t q r s).daemon ≡ s.daemon)
        × ((continue g who b t q r s).due ≡ s.due)
        × ((continue g who b t q r s).accepted ≡ s.accepted)
  continue-watcher who b t q (raise e) s = (refl, refl, refl)
  continue-watcher who b t none (ok u) s = (refl, refl, refl)
  continue-watcher who b t (some p) (ok u) s = (refl, refl, refl)

  Work-IsScheduled : {s t : System g} → Work g s t → IsPlaced g s → IsScheduled s → IsScheduled t
  unfolding reject_new_events stop persist_on_shutdown place
  Work-IsScheduled (fires t e) i h = inr (inl (omega arith))
  Work-IsScheduled (fires_idle t e) i h = h
  Work-IsScheduled {s} (flushes due) i h = inl (pending-flush s.daemon.watcher)
  Work-IsScheduled (takes b xs ys t o e) i h = h
  Work-IsScheduled (takes_drained b t o st) i h = h
  Work-IsScheduled {s} (runs who b t p o) i h =
      let (same, due, kept) =
        continue-watcher who b t (following p) (run_phase g p b t s.daemon).0
          (record s { daemon = (run_phase g p b t s.daemon).1 }) in
      IsScheduled-untouched s (after_phase g who b t p s)
        (rw same (phase-IsUntouched g p b t s.daemon)) due h
  Work-IsScheduled (takes_idle t o e) i h = h
  Work-IsScheduled {s} (runs_cycle t o) i h =
      IsScheduled-untouched s (after_cycle g t s)
        (cycle-IsUntouched g t.schedule t.moment.asked t.moment.ended s.daemon) refl h
  Work-IsScheduled (rejects st) i h = h
  Work-IsScheduled {s} (drains st) i h = inl (pending-drain s.daemon.watcher)
  Work-IsScheduled (stops st) i h = inl (i.emptied (ground (arith, st)))
  Work-IsScheduled (takes_persist o st) i h = h
  Work-IsScheduled (runs_persist o st) i h = h
  Work-IsScheduled (finishes st) i h = h

  queue-IsScheduled :
      (s : System g) (c : FileChange) → IsScheduled s → IsScheduled (after_queue g c s)
  queue-IsScheduled s c h = elim (Bool-cases s.daemon.watcher.rejecting_events) [
    | inl off ↦ rw (queue_rejected c s.daemon.watcher off) h
    | inr on ↦ inr (inr (scheduled-queue c s.daemon.watcher on))
  ]

  Step-IsScheduled : {s t : System g} → Step g s t → IsPlaced g s → IsScheduled s → IsScheduled t
  Step-IsScheduled (works w) i h = Work-IsScheduled w i h
  Step-IsScheduled {s} (event c) i h = queue-IsScheduled s c h
  Step-IsScheduled (claims e) i h = h
  Step-IsScheduled (returns_at_once e) i h = h

  pub Reach-IsScheduled :
      {s t : System g} → Reach g s t → IsPlaced g s → IsScheduled s → IsScheduled t
  Reach-IsScheduled here i h = h
  Reach-IsScheduled (next r st) i h =
      Step-IsScheduled st (Reach-IsPlaced g r i) (Reach-IsScheduled r i h)

  pub Work-accepted : {s t : System g} → Work g s t → t.accepted ≡ s.accepted
  Work-accepted (fires t e) = refl
  Work-accepted (fires_idle t e) = refl
  Work-accepted (flushes due) = refl
  Work-accepted (takes b xs ys t o e) = refl
  Work-accepted (takes_drained b t o st) = refl
  Work-accepted {s} (runs who b t p o) =
      (continue-watcher who b t (following p) (run_phase g p b t s.daemon).0
        (record s { daemon = (run_phase g p b t s.daemon).1 })).2
  Work-accepted (takes_idle t o e) = refl
  Work-accepted (runs_cycle t o) = refl
  Work-accepted (rejects st) = refl
  Work-accepted (drains st) = refl
  Work-accepted (stops st) = refl
  Work-accepted (takes_persist o st) = refl
  Work-accepted (runs_persist o st) = refl
  Work-accepted (finishes st) = refl

  -- In a quiet state nothing is pending.
  pub quiet-pending : (s : System g) → IsQuiet s → IsScheduled s → s.daemon.watcher.pending ≡ []
  quiet-pending s q (inl h) = h
  quiet-pending s q (inr (inl h)) = absurd (omega (arith, q.due))
  quiet-pending s q (inr (inr (t, e, running))) = absurd (ground (arith, q.armed, running))
