-- ===== src/Daemon/Threads/Places/Compiling.antt =====
-- daemon.py: a part of a compilation, and its end, where the shutdown stands.
use graphify_daemon_portfoli.Prelude.{
  ◌≡◌, refl, sym, ◌∙◌, arith, true, false, Option, none, some, leb, ◌==◌,
}
use graphify_daemon_portfoli.Prelude.Exec.{Result, ok, raise}
use graphify_daemon_portfoli.Vault.Batching.{Batch}
use graphify_daemon_portfoli.Graphify.{Graphify}
use graphify_daemon_portfoli.Daemon.{DaemonState}
use graphify_daemon_portfoli.Daemon.Threads.{
  Turn, Caller, Phase, following, Owner, Stage, Event, System, run_phase, continue, release,
  after_phase, returned,
}
use graphify_daemon_portfoli.Daemon.Threads.Watch.{phase-state, phase-IsUntouched}
use graphify_daemon_portfoli.Daemon.Threads.Places.{
  place, state_at, persists_in, persists-append, IsPlaced, keeps,
}

module _ (g : Graphify) where
  released_by_timer :
      (s : System g) (b : Batch) (t : Turn) (p : Phase) (r : Result (Unit {0}))
      → s.owner ≡ Owner.compiling Caller.by_timer b t p
      → IsPlaced g s
      → IsPlaced g (release g Caller.by_timer b t r s)
  unfolding persists_in
  released_by_timer s b t p r o i =
      keeps g s (release g Caller.by_timer b t r s) i (ground (arith, o)) (ground (arith, o)) refl
        refl refl (λ e h. e) (ground (arith, persists-append s.history (Event.compiles b t)))

  -- A place from which a compilation of the drained batch goes on, whether it returned or raised.
  record IsAfterBatch (st : Stage) : Type 0 where
    early : leb 9 (place st) ≡ false
    late : leb 3 (place st) ≡ true
    rejecting : leb 2 (place st) ≡ true
    not_batch : (place st == 4) ≡ false
    not_persist : (place st == 8) ≡ false
    stopping : state_at st ≡ DaemonState.stopping

  returned-IsAfterBatch :
      (r : Result (Unit {0})) (st : Stage) → IsAfterBatch (returned Caller.by_shutdown r st)
  unfolding place state_at
  returned-IsAfterBatch (ok u) st = record {
    early = refl;
    late = refl;
    rejecting = refl;
    not_batch = refl;
    not_persist = refl;
    stopping = refl;
  }
  returned-IsAfterBatch (raise e) st = record {
    early = refl;
    late = refl;
    rejecting = refl;
    not_batch = refl;
    not_persist = refl;
    stopping = refl;
  }

  state_in_batch : (st : Stage) → place st ≡ 4 → state_at st ≡ DaemonState.stopping
  unfolding place state_at
  state_in_batch Stage.in_batch h = refl
  state_in_batch Stage.unclaimed h = absurd (omega (arith, h))
  state_in_batch Stage.finished h = absurd (omega (arith, h))
  state_in_batch Stage.claimed h = refl
  state_in_batch Stage.rejected h = refl
  state_in_batch (Stage.drained b) h = refl
  state_in_batch (Stage.failed e) h = refl
  state_in_batch Stage.compiled h = refl
  state_in_batch Stage.unwatched h = refl
  state_in_batch Stage.in_persist h = refl
  state_in_batch Stage.persisted h = refl

  released_by_shutdown :
      (s : System g) (b : Batch) (t : Turn) (p : Phase) (r : Result (Unit {0}))
      → s.owner ≡ Owner.compiling Caller.by_shutdown b t p
      → IsPlaced g s
      → IsPlaced g (release g Caller.by_shutdown b t r s)
  unfolding persists_in
  released_by_shutdown s b t p r o i =
      from (returned-IsAfterBatch r s.stage) (ground (arith, i.in_batch))
    where
      from :
          IsAfterBatch (returned Caller.by_shutdown r s.stage)
          → place s.stage ≡ 4
          → IsPlaced g (release g Caller.by_shutdown b t r s)
      from a four = record {
        in_batch = sym a.not_batch;
        in_persist = sym a.not_persist;
        state = i.state ∙ state_in_batch s.stage four ∙ sym a.stopping;
        rejecting = ground (arith, a.rejecting, i.rejecting, four);
        emptied = λ e. i.emptied (ground (arith, four));
        persisted =
            ground
              (arith, persists-append s.history (Event.compiles b t), i.persisted, a.early, four);
      }

  continue-IsPlaced :
      (who : Caller) (b : Batch) (t : Turn) (p : Phase) (q : Option Phase) (r : Result (Unit {0}))
      (s : System g)
      → s.owner ≡ Owner.compiling who b t p
      → IsPlaced g s
      → IsPlaced g (continue g who b t q r s)
  continue-IsPlaced Caller.by_timer b t p q (raise e) s o i =
      released_by_timer s b t p (raise e) o i
  continue-IsPlaced Caller.by_timer b t p none (ok u) s o i = released_by_timer s b t p (ok u) o i
  continue-IsPlaced Caller.by_shutdown b t p q (raise e) s o i =
      released_by_shutdown s b t p (raise e) o i
  continue-IsPlaced Caller.by_shutdown b t p none (ok u) s o i =
      released_by_shutdown s b t p (ok u) o i
  continue-IsPlaced Caller.by_timer b t p (some n) (ok u) s o i =
      keeps g s (record s { owner = Owner.compiling Caller.by_timer b t n }) i (ground (arith, o))
        (ground (arith, o)) refl refl refl (λ e h. e) refl
  continue-IsPlaced Caller.by_shutdown b t p (some n) (ok u) s o i =
      keeps g s (record s { owner = Owner.compiling Caller.by_shutdown b t n }) i
        (ground (arith, o)) (ground (arith, o)) refl refl refl (λ e h. e) refl

  -- A part of a compilation, before the lock moves on.
  pub ran-IsPlaced :
      (s : System g) (b : Batch) (t : Turn) (p : Phase)
      → IsPlaced g s
      → IsPlaced g (record s { daemon = (run_phase g p b t s.daemon).1 })
  ran-IsPlaced s b t p i =
      let u = phase-IsUntouched g p b t s.daemon in
      keeps g s (record s { daemon = (run_phase g p b t s.daemon).1 }) i refl refl refl
        (phase-state g p b t s.daemon) u.rejecting (λ e r. u.pending ∙ e) refl

  pub phase-IsPlaced :
      (s : System g) (who : Caller) (b : Batch) (t : Turn) (p : Phase)
      → s.owner ≡ Owner.compiling who b t p
      → IsPlaced g s
      → IsPlaced g (after_phase g who b t p s)
  phase-IsPlaced s who b t p o i =
      continue-IsPlaced who b t p (following p) (run_phase g p b t s.daemon).0
        (record s { daemon = (run_phase g p b t s.daemon).1 }) o (ran-IsPlaced s b t p i)
