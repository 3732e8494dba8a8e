-- ===== src/Daemon/Threads/Accounting.antt =====
-- daemon.py and batching.py: where the accepted changes are, however the threads interleave: compiled, being
-- compiled, drained, in the hand of a thread, or pending.
pub mod Tally
use graphify_daemon_portfoli.Prelude.{
  ℕ, ◌+◌, ◌≡◌, refl, arith, Bool, true, false, Option, none, some, List, [], ◌∷◌, ◌++◌,
  if◌then◌else◌, Bool-cases, inl, inr,
}
use graphify_daemon_portfoli.Prelude.Exec.{Result, ok, raise}
use graphify_daemon_portfoli.Vault.Batching.{FileChange, Batch}
use graphify_daemon_portfoli.Vault.Batching.Watcher.{
  Watcher, queue_change, flush, drain_pending_batch, reject_new_events, stop, is_empty,
}
use graphify_daemon_portfoli.Vault.Batching.Watcher.Delivery.{
  changes_of, pending-queue, pending-flush, pending-drain, empty_list,
}
use graphify_daemon_portfoli.Graphify.{Graphify}
use graphify_daemon_portfoli.Daemon.{Daemon, persist_on_shutdown}
use graphify_daemon_portfoli.Daemon.Threads.{
  Turn, Caller, Phase, following, Owner, Stage, Event, after_drained, handed, System, Work, Step,
  Reach, here, next, begin, run_phase, continue, release, returned, IsFresh, after_queue,
  after_phase, fires, fires_idle, flushes, takes, takes_drained, runs, takes_idle, runs_cycle,
  rejects, drains, stops, takes_persist, runs_persist, finishes, works, event, claims,
  returns_at_once,
}
use graphify_daemon_portfoli.Daemon.Threads.Watch.{
  IsUntouched, phase-IsUntouched, cycle-IsUntouched,
}
use graphify_daemon_portfoli.Daemon.Threads.Places.{IsPlaced, place}
use graphify_daemon_portfoli.Daemon.Threads.Places.Compiling.{ran-IsPlaced}
use graphify_daemon_portfoli.Daemon.Threads.Places.Reached.{
  first_claim, begin-IsPlaced, Reach-IsPlaced,
}
use graphify_daemon_portfoli.Daemon.Threads.Accounting.Tally.{
  tally, compiled_of, held, awaited, tally-append, tally-one, tally-handed, tally-taken,
  tally-compiled, flush_moves, drain_moves, cycle_compiles_nothing, persist_compiles_nothing,
}

module _ (g : Graphify) (p : FileChange → Bool) where
  -- As many accepted changes satisfy the test as there are in all the places where a change can be.
  abbrev pub IsAccounted : System g → Type 0
  IsAccounted s =
      tally p s.accepted
      ≡ tally p (compiled_of s.history)
        + tally p (held s.owner)
        + tally p (awaited s.stage)
        + tally p (changes_of s.in_hand)
        + tally p s.daemon.watcher.pending

  awaited-returned :
      (r : Result (Unit {0})) (st : Stage)
      → tally p (awaited (returned Caller.by_shutdown r st)) ≡ 0
  unfolding tally
  awaited-returned (ok u) st = refl
  awaited-returned (raise e) st = refl

  nothing_awaited : (st : Stage) → place st ≡ 4 → tally p (awaited st) ≡ 0
  unfolding place tally
  nothing_awaited (Stage.drained b) h = absurd (omega (arith, h))
  nothing_awaited Stage.unclaimed h = refl
  nothing_awaited Stage.claimed h = refl
  nothing_awaited Stage.rejected h = refl
  nothing_awaited Stage.in_batch h = refl
  nothing_awaited Stage.compiled h = refl
  nothing_awaited Stage.unwatched h = refl
  nothing_awaited Stage.in_persist h = refl
  nothing_awaited Stage.persisted h = refl
  nothing_awaited Stage.finished h = refl
  nothing_awaited (Stage.failed e) h = refl

  release-IsAccounted :
      (who : Caller) (b : Batch) (t : Turn) (q : Phase) (r : Result (Unit {0})) (s : System g)
      → s.owner ≡ Owner.compiling who b t q
      → IsPlaced g s
      → IsAccounted s
      → IsAccounted (release g who b t r s)
  unfolding tally
  release-IsAccounted Caller.by_timer b t q r s o i h =
      ground (arith, tally-compiled p s.history b t, o)
  release-IsAccounted Caller.by_shutdown b t q r s o i h = ground (
    arith,
    tally-compiled p s.history b t,
    awaited-returned r s.stage,
    nothing_awaited s.stage (ground (arith, i.in_batch)),
  )

  continue-IsAccounted :
      (who : Caller) (b : Batch) (t : Turn) (q : Phase) (n : Option Phase) (r : Result (Unit {0}))
      (s : System g)
      → s.owner ≡ Owner.compiling who b t q
      → IsPlaced g s
      → IsAccounted s
      → IsAccounted (continue g who b t n r s)
  continue-IsAccounted who b t q n (raise e) s o i h =
      release-IsAccounted who b t q (raise e) s o i h
  continue-IsAccounted who b t q none (ok u) s o i h = release-IsAccounted who b t q (ok u) s o i h
  continue-IsAccounted who b t q (some n) (ok u) s o i h = ground (arith, o)

  queue-IsAccounted :
      (s : System g) (c : FileChange) → IsAccounted s → IsAccounted (after_queue g c s)
  queue-IsAccounted s c h = elim (Bool-cases s.daemon.watcher.rejecting_events) [
    | inl off ↦ ground (arith, pending-queue c s.daemon.watcher)
    | inr on ↦ ground (
      arith,
      pending-queue c s.daemon.watcher,
      tally-one p c s.accepted,
      tally-one p c s.daemon.watcher.pending,
    )
  ]

  phase-IsAccounted :
      (s : System g) (who : Caller) (b : Batch) (t : Turn) (q : Phase)
      → s.owner ≡ Owner.compiling who b t q
      → IsPlaced g s
      → IsAccounted s
      → IsAccounted (after_phase g who b t q s)
  phase-IsAccounted s who b t q o i h =
      let u = phase-IsUntouched g q b t s.daemon in
      let s' = record s { daemon = (run_phase g q b t s.daemon).1 } in
      continue-IsAccounted who b t q (following q) (run_phase g q b t s.daemon).0 s' o
        (ran-IsPlaced g s b t q i) (ground (arith, u.pending))

  Work-IsAccounted : {s t : System g} → Work g s t → IsPlaced g s → IsAccounted s → IsAccounted t
  unfolding tally reject_new_events stop persist_on_shutdown
  Work-IsAccounted (fires t e) i h = h
  Work-IsAccounted (fires_idle t e) i h = h
  Work-IsAccounted {s} (flushes due) i h =
      ground
        (arith, flush_moves p s.daemon.watcher, tally-handed p (flush s.daemon.watcher).0 s.in_hand)
  Work-IsAccounted (takes b xs ys t o e) i h = ground (arith, tally-taken p xs b ys, o, e)
  Work-IsAccounted (takes_drained b t o st) i h = ground (arith, o, st)
  Work-IsAccounted {s} (runs who b t q o) i h = phase-IsAccounted s who b t q o i h
  Work-IsAccounted (takes_idle t o e) i h = ground (arith, o)
  Work-IsAccounted {s} (runs_cycle t o) i h = ground (
    arith,
    o,
    cycle_compiles_nothing s.history t,
    (cycle-IsUntouched g t.schedule t.moment.asked t.moment.ended s.daemon).pending,
  )
  Work-IsAccounted (rejects st) i h = ground (arith, st)
  Work-IsAccounted {s} (drains st) i h = ground (arith, st, drain_moves p s.daemon.watcher)
  Work-IsAccounted (stops st) i h = ground (arith, st)
  Work-IsAccounted (takes_persist o st) i h = ground (arith, o, st)
  Work-IsAccounted {s} (runs_persist o st) i h =
      ground (arith, o, st, persist_compiles_nothing s.history)
  Work-IsAccounted (finishes st) i h = ground (arith, st)

  Step-IsAccounted : {s t : System g} → Step g s t → IsPlaced g s → IsAccounted s → IsAccounted t
  unfolding tally
  Step-IsAccounted (works w) i h = Work-IsAccounted w i h
  Step-IsAccounted {s} (event c) i h = queue-IsAccounted s c h
  Step-IsAccounted {s} (claims e) i h = ground (arith, first_claim g s i e)
  Step-IsAccounted (returns_at_once e) i h = h

  Reach-IsAccounted : {s t : System g} → Reach g s t → IsPlaced g s → IsAccounted s → IsAccounted t
  Reach-IsAccounted here i h = h
  Reach-IsAccounted (next r st) i h =
      Step-IsAccounted st (Reach-IsPlaced g r i) (Reach-IsAccounted r i h)

  -- However the threads interleave from a running daemon whose watcher has seen nothing: as many
  -- accepted changes satisfy a test as there are, together, in the batches whose compilation has ended,
  -- in the batch that is being compiled, in the batch that a shutdown has drained, in the batches that
  -- flushes have in hand, and among the pending changes.
  pub accounted :
      (d : Daemon g) (s : System g)
      → IsFresh g d
      → Reach g (begin g d) s
      → tally p s.accepted
        ≡ tally p (compiled_of s.history)
          + tally p (held s.owner)
          + tally p (awaited s.stage)
          + tally p (changes_of s.in_hand)
          + tally p s.daemon.watcher.pending
  unfolding tally compiled_of changes_of
  accounted d s f r = Reach-IsAccounted r (begin-IsPlaced g d f) (ground (arith, f.nothing))
