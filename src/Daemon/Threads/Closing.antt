-- ===== src/Daemon/Threads/Closing.antt =====
-- daemon.py: the lifecycle states among the threads, and how often a shutdown persists.
use graphify_daemon_portfoli.Prelude.{
  ℕ, ◌+◌, ◌≤◌, ◌≡◌, refl, sym, ◌∙◌, arith, Bool, true, Option, none, some, [], if◌then◌else◌, leb,
}
use graphify_daemon_portfoli.Prelude.Exec.{Result, ok, raise}
use graphify_daemon_portfoli.Vault.Batching.{FileChange, Batch}
use graphify_daemon_portfoli.Vault.Batching.Watcher.{drain_pending_batch}
use graphify_daemon_portfoli.Vault.Batching.Watcher.Delivery.{changes_of}
use graphify_daemon_portfoli.Graphify.{Graphify}
use graphify_daemon_portfoli.Daemon.{DaemonState, Daemon}
use graphify_daemon_portfoli.Daemon.Lifecycle.{rank}
use graphify_daemon_portfoli.Daemon.Threads.{
  Turn, Caller, Phase, following, Owner, Stage, after_drained, System, Work, Step, Reach, here,
  next, begin, run_phase, continue, returned, IsFresh, fires, fires_idle, flushes, takes,
  takes_drained, runs, takes_idle, runs_cycle, rejects, drains, stops, takes_persist, runs_persist,
  finishes, works, event, claims, returns_at_once,
}
use graphify_daemon_portfoli.Daemon.Threads.Places.{IsPlaced, place, state_at, persists_in}
use graphify_daemon_portfoli.Daemon.Threads.Places.Reached.{
  first_claim, begin-IsPlaced, Reach-IsPlaced,
}
use graphify_daemon_portfoli.Daemon.Threads.Accounting.{accounted}
use graphify_daemon_portfoli.Daemon.Threads.Accounting.Tally.{tally, compiled_of, held}

returned-place :
    (who : Caller) (r : Result (Unit {0})) (st : Stage)
    → (who ≡ Caller.by_shutdown → place st ≡ 4)
    → place st ≤ place (returned who r st)
unfolding place
returned-place Caller.by_timer r st h = omega arith
returned-place Caller.by_shutdown (ok u) st h = omega (arith, h refl)
returned-place Caller.by_shutdown (raise e) st h = omega (arith, h refl)

drained-place : (o : Option Batch) → 3 ≤ place (after_drained o)
unfolding place
drained-place none = omega arith
drained-place (some b) = omega arith

module _ (g : Graphify) where
  held_place :
      (s : System g) (who : Caller) (b : Batch) (t : Turn) (p : Phase)
      → IsPlaced g s
      → s.owner ≡ Owner.compiling who b t p
      → who ≡ Caller.by_shutdown
      → place s.stage ≡ 4
  held_place s who b t p i o w = ground (arith, i.in_batch, o, w)

  continue-place :
      (who : Caller) (b : Batch) (t : Turn) (q : Option Phase) (r : Result (Unit {0}))
      (s : System g)
      → (who ≡ Caller.by_shutdown → place s.stage ≡ 4)
      → place s.stage ≤ place (continue g who b t q r s).stage
  continue-place who b t q (raise e) s h = returned-place who (raise e) s.stage h
  continue-place who b t none (ok u) s h = returned-place who (ok u) s.stage h
  continue-place who b t (some p) (ok u) s h = omega arith

  Work-place : {s t : System g} → Work g s t → IsPlaced g s → place s.stage ≤ place t.stage
  unfolding place
  Work-place (fires t e) i = omega arith
  Work-place (fires_idle t e) i = omega arith
  Work-place (flushes due) i = omega arith
  Work-place (takes b xs ys t o e) i = omega arith
  Work-place (takes_drained b t o st) i = ground arith
  Work-place {s} (runs who b t p o) i =
      continue-place who b t (following p) (run_phase g p b t s.daemon).0
        (record s { daemon = (run_phase g p b t s.daemon).1 }) (held_place s who b t p i o)
  Work-place (takes_idle t o e) i = omega arith
  Work-place (runs_cycle t o) i = omega arith
  Work-place (rejects st) i = ground arith
  Work-place {s} (drains st) i =
      ground (arith, drained-place (drain_pending_batch s.daemon.watcher).0)
  Work-place (stops st) i = ground arith
  Work-place (takes_persist o st) i = ground arith
  Work-place (runs_persist o st) i = ground arith
  Work-place (finishes st) i = ground arith

  Step-place : {s t : System g} → Step g s t → IsPlaced g s → place s.stage ≤ place t.stage
  unfolding place
  Step-place (works w) i = Work-place w i
  Step-place (event c) i = omega arith
  Step-place {s} (claims e) i = ground (arith, first_claim g s i e)
  Step-place (returns_at_once e) i = omega arith

  Reach-place : {s t : System g} → Reach g s t → IsPlaced g s → place s.stage ≤ place t.stage
  Reach-place here i = omega arith
  Reach-place (next r st) i = omega (arith, Reach-place r i, Step-place st (Reach-IsPlaced g r i))

  rank-state_at :
      (st : Stage)
      → rank (state_at st) ≡ (if leb 10 (place st) then 2 else if leb 1 (place st) then 1 else 0)
  unfolding state_at place
  rank-state_at Stage.unclaimed = refl
  rank-state_at Stage.claimed = refl
  rank-state_at Stage.rejected = refl
  rank-state_at (Stage.drained b) = refl
  rank-state_at Stage.in_batch = refl
  rank-state_at (Stage.failed e) = refl
  rank-state_at Stage.compiled = refl
  rank-state_at Stage.unwatched = refl
  rank-state_at Stage.in_persist = refl
  rank-state_at Stage.persisted = refl
  rank-state_at Stage.finished = refl

  rank_by_place :
      (m n : ℕ)
      → m ≤ n
      → (if leb 10 m then 2 else if leb 1 m then 1 else 0)
        ≤ (if leb 10 n then 2 else if leb 1 n then 1 else 0)
  rank_by_place m n h = ground arith

  -- From a running daemon whose watcher has seen nothing, the lifecycle state only goes forward, from RUNNING to
  -- STOPPING to STOPPED, whatever the threads do and however often `shutdown` is called.
  pub lifecycle_forward :
      (d : Daemon g) (s t : System g)
      → IsFresh g d
      → Reach g (begin g d) s
      → Reach g s t
      → rank s.daemon.state ≤ rank t.daemon.state
  lifecycle_forward d s t f r q =
      let i = Reach-IsPlaced g r (begin-IsPlaced g d f) in
      let j = Reach-IsPlaced g q i in
      rw (i.state, j.state, rank-state_at s.stage, rank-state_at t.stage)
        (rank_by_place (place s.stage) (place t.stage) (Reach-place q i))

  stopped_finished : (st : Stage) → state_at st ≡ DaemonState.stopped → st ≡ Stage.finished
  unfolding state_at
  stopped_finished Stage.finished h = refl
  stopped_finished Stage.unclaimed h = cc
  stopped_finished Stage.claimed h = cc
  stopped_finished Stage.rejected h = cc
  stopped_finished (Stage.drained b) h = cc
  stopped_finished Stage.in_batch h = cc
  stopped_finished (Stage.failed e) h = cc
  stopped_finished Stage.compiled h = cc
  stopped_finished Stage.unwatched h = cc
  stopped_finished Stage.in_persist h = cc
  stopped_finished Stage.persisted h = cc

  -- What holds when the shutdown's thread has finished.
  finished_facts :
      (s : System g)
      → IsPlaced g s
      → s.stage ≡ Stage.finished
      → (persists_in s.history ≡ 1)
        × (s.daemon.watcher.rejecting_events ≡ true)
        × (s.daemon.watcher.pending ≡ [])
  unfolding place
  finished_facts s i e = (
    ground (arith, i.persisted, e),
    ground (arith, i.rejecting, e),
    i.emptied (ground (arith, e)),
  )

  finished-tally :
      (p : FileChange → Bool) (d : Daemon g) (s : System g)
      → IsFresh g d
      → Reach g (begin g d) s
      → s.stage ≡ Stage.finished
      → s.daemon.watcher.pending ≡ []
      → tally p s.accepted
        ≡ tally p (compiled_of s.history) + tally p (held s.owner) + tally p (changes_of s.in_hand)
  unfolding tally
  finished-tally p d s f r e q = ground (arith, accounted g p d s f r, e, q)

  unclaimed_persists :
      (s : System g) → IsPlaced g s → s.stage ≡ Stage.unclaimed → persists_in s.history ≡ 0
  unfolding place
  unclaimed_persists s i e = ground (arith, i.persisted, e)

  -- In every state that the threads reach from a running daemon whose watcher has seen nothing, at most
  -- one shutdown has persisted: none while the daemon is RUNNING, and exactly one once it is STOPPED.
  -- When it is STOPPED, events are rejected, nothing is pending, and as many accepted changes satisfy a
  -- test as there are in compiled batches, in the one that is being compiled, and in those in hand.
  pub persists_once :
      (d : Daemon g) (s : System g)
      → IsFresh g d
      → Reach g (begin g d) s
      → (persists_in s.history ≤ 1)
        × (s.daemon.state ≡ DaemonState.running → persists_in s.history ≡ 0)
        × (s.daemon.state ≡ DaemonState.stopped
            → (persists_in s.history ≡ 1)
              × (s.daemon.watcher.rejecting_events ≡ true)
              × (s.daemon.watcher.pending ≡ [])
              × ((p : FileChange → Bool)
                  → tally p s.accepted
                    ≡ tally p (compiled_of s.history)
                      + tally p (held s.owner)
                      + tally p (changes_of s.in_hand)))
  persists_once d s f r =
      let i = Reach-IsPlaced g r (begin-IsPlaced g d f) in
      (
        ground (arith, i.persisted),
        λ running. unclaimed_persists s i (first_claim g s i running),
        λ stopped.
            let e = stopped_finished s.stage (sym i.state ∙ stopped) in
            let (once, rejecting, empty) = finished_facts s i e in
            (once, rejecting, empty, λ p. finished-tally p d s f r e empty),
      )
