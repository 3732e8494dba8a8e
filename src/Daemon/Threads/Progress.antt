-- ===== src/Daemon/Threads/Progress.antt =====
-- daemon.py and batching.py: the work that the threads have left, without new events or calls. Every step of
-- work takes some of it away.
use graphify_daemon_portfoli.Prelude.{
  ℕ, ◌+◌, ◌*◌, ◌≤◌, ◌<◌, ◌≡◌, arith, Option, none, some, List, [], ◌∷◌, length, length-append,
}
use graphify_daemon_portfoli.Prelude.Exec.{Result, ok, raise}
use graphify_daemon_portfoli.Vault.Batching.{Batch}
use graphify_daemon_portfoli.Vault.Batching.Watcher.{
  Watcher, flush, drain_pending_batch, reject_new_events, stop,
}
use graphify_daemon_portfoli.Graphify.{Graphify}
use graphify_daemon_portfoli.Daemon.{persist_on_shutdown}
use graphify_daemon_portfoli.Daemon.Threads.{
  Turn, Caller, Phase, following, Owner, Stage, after_drained, handed, System, Work, run_phase,
  continue, returned, fires, fires_idle, flushes, takes, takes_drained, runs, takes_idle,
  runs_cycle, rejects, drains, stops, takes_persist, runs_persist, finishes,
}
use graphify_daemon_portfoli.Daemon.Threads.Watch.{
  phase-IsUntouched, cycle-IsUntouched, cancelled_shorter, cancel_shorter, idle-phase, idle-cycle,
  scheduled_by,
}

-- The steps that a compilation may still cause, an idle timer that it schedules included.
unfoldable pub phase_work : Phase → ℕ
phase_work Phase.noting = 4
phase_work Phase.publishing = 5
phase_work Phase.syncing = 6
phase_work Phase.extracting = 7

-- The steps of the caller after its batch.
unfoldable pub caller_work : Caller → ℕ
caller_work Caller.by_timer = 0
caller_work Caller.by_shutdown = 5

unfoldable pub owner_work : Owner → ℕ
owner_work Owner.free = 0
owner_work Owner.persisting = 0
owner_work (Owner.cycling t) = 1
owner_work (Owner.compiling who b t p) = phase_work p + caller_work who

-- The steps that the shutdown may still cause, beside those of the lock that it holds.
unfoldable pub stage_work : Stage → ℕ
stage_work Stage.unclaimed = 0
stage_work (Stage.failed e) = 0
stage_work Stage.in_batch = 0
stage_work Stage.finished = 0
stage_work Stage.persisted = 1
stage_work Stage.in_persist = 2
stage_work Stage.unwatched = 3
stage_work Stage.compiled = 4
stage_work (Stage.drained b) = 13
stage_work Stage.rejected = 14
stage_work Stage.claimed = 15

returned_work :
    (who : Caller) (r : Result (Unit {0})) (st : Stage)
    → stage_work (returned who r st) ≤ stage_work st + caller_work who
unfolding stage_work caller_work
returned_work Caller.by_timer r st = omega arith
returned_work Caller.by_shutdown (ok u) st = omega arith
returned_work Caller.by_shutdown (raise e) st = omega arith

drained_work : (o : Option Batch) → stage_work (after_drained o) ≤ 13
unfolding stage_work
drained_work none = omega arith
drained_work (some b) = omega arith

length-handed : (o : Option Batch) (bs : List Batch) → length (handed o bs) ≤ length bs + 1
length-handed none bs = omega arith
length-handed (some b) bs = omega (arith, length-append bs (b ∷ []))

-- A flush and a drain start no timer.
flush_armed : (w : Watcher) → (flush w).1.armed ≡ w.armed
unfolding flush
flush_armed w = ground arith

flush_idle : (w : Watcher) → (flush w).1.idle_armed ≡ w.idle_armed
unfolding flush
flush_idle w = ground arith

drain_armed : (w : Watcher) → length (drain_pending_batch w).1.armed ≤ length w.armed
unfolding drain_pending_batch stop
drain_armed w = ground (arith, cancel_shorter w.timer w.armed)

drain_idle : (w : Watcher) → length (drain_pending_batch w).1.idle_armed ≤ length w.idle_armed
unfolding drain_pending_batch stop
drain_idle w = ground (arith, cancel_shorter w.idle_timer w.idle_armed)

module _ (g : Graphify) where
  unfoldable pub work_left : System g → ℕ
  work_left s =
      10 * length s.daemon.watcher.armed
      + 9 * s.due
      + 8 * length s.in_hand
      + 3 * length s.daemon.watcher.idle_armed
      + 2 * s.idle_due
      + owner_work s.owner
      + stage_work s.stage

  -- Steps of work, one after another.
  pub data Works (s : System g) : ℕ → System g → Type 0 where
    still : Works s 0 s
    later : {n : ℕ} {t u : System g} → Works s n t → Work g t u → Works s (n + 1) u

  -- The lock moves on or is released.
  continue-work :
      (who : Caller) (b : Batch) (t : Turn) (p : Phase) (r : Result (Unit {0})) (s : System g)
      → s.owner ≡ Owner.compiling who b t p
      → work_left (continue g who b t (following p) r s) + 3 * scheduled_by p < work_left s
  unfolding work_left owner_work phase_work
  continue-work who b t Phase.extracting (ok u) s o = ground (arith, o)
  continue-work who b t Phase.syncing (ok u) s o = ground (arith, o)
  continue-work who b t Phase.publishing (ok u) s o = ground (arith, o)
  continue-work who b t Phase.noting (ok u) s o =
      ground (arith, o, returned_work who (ok u) s.stage)
  continue-work who b t Phase.extracting (raise e) s o =
      ground (arith, o, returned_work who (raise e) s.stage)
  continue-work who b t Phase.syncing (raise e) s o =
      ground (arith, o, returned_work who (raise e) s.stage)
  continue-work who b t Phase.publishing (raise e) s o =
      ground (arith, o, returned_work who (raise e) s.stage)
  continue-work who b t Phase.noting (raise e) s o =
      ground (arith, o, returned_work who (raise e) s.stage)

  ran-work :
      (s : System g) (b : Batch) (t : Turn) (p : Phase)
      → work_left (record s { daemon = (run_phase g p b t s.daemon).1 })
        ≤ work_left s + 3 * scheduled_by p
  unfolding work_left
  ran-work s b t p =
      ground (arith, (phase-IsUntouched g p b t s.daemon).armed, idle-phase g p b t s.daemon)

  pub Work-shrinks : {s t : System g} → Work g s t → work_left t < work_left s
  unfolding work_left owner_work phase_work caller_work stage_work reject_new_events
      persist_on_shutdown stop
  Work-shrinks {s} (fires t e) = ground (arith, cancelled_shorter t s.daemon.watcher.armed e)
  Work-shrinks {s} (fires_idle t e) =
      ground (arith, cancelled_shorter t s.daemon.watcher.idle_armed e)
  Work-shrinks {s} (flushes due) = ground (
    arith,
    flush_armed s.daemon.watcher,
    flush_idle s.daemon.watcher,
    length-handed (flush s.daemon.watcher).0 s.in_hand,
  )
  Work-shrinks {s} (takes b xs ys t o e) =
      ground (arith, length-append xs ys, length-append xs (b ∷ ys))
  Work-shrinks {s} (takes_drained b t o st) = ground arith
  Work-shrinks {s} (runs who b t p o) =
      let s' = record s { daemon = (run_phase g p b t s.daemon).1 } in
      omega (arith, continue-work who b t p (run_phase g p b t s.daemon).0 s' o, ran-work s b t p)
  Work-shrinks {s} (takes_idle t o e) = ground arith
  Work-shrinks {s} (runs_cycle t o) = ground (
    arith,
    idle-cycle g t.schedule t.moment.asked t.moment.ended s.daemon,
    (cycle-IsUntouched g t.schedule t.moment.asked t.moment.ended s.daemon).armed,
  )
  Work-shrinks {s} (rejects st) = ground arith
  Work-shrinks {s} (drains st) = ground (
    arith,
    drained_work (drain_pending_batch s.daemon.watcher).0,
    drain_armed s.daemon.watcher,
    drain_idle s.daemon.watcher,
  )
  Work-shrinks {s} (stops st) = ground (
    arith,
    cancel_shorter s.daemon.watcher.timer s.daemon.watcher.armed,
    cancel_shorter s.daemon.watcher.idle_timer s.daemon.watcher.idle_armed,
  )
  Work-shrinks {s} (takes_persist o st) = ground arith
  Work-shrinks {s} (runs_persist o st) = ground arith
  Work-shrinks {s} (finishes st) = ground arith

  -- Steps of work, with no event and no call of `shutdown` between them, are no more than the work that
  -- was left before them: no thread keeps another busy for ever.
  pub work_ends :
      {s : System g} {n : ℕ} {t : System g} → Works s n t → n + work_left t ≤ work_left s
  work_ends still = omega arith
  work_ends (later ws w) = omega (arith, work_ends ws, Work-shrinks w)
