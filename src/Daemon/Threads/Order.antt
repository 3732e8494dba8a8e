-- ===== src/Daemon/Threads/Order.antt =====
-- batching.py and shutdown.py: a batch in the hand of a thread waits for a lock that is given to any waiter.
pub mod Recreated
use graphify_daemon_portfoli.Prelude.{
  ℕ, ◌+◌, ◌<◌, ◌≡◌, refl, sym, ap, ◌∙◌, arith, Bool, true, false, Option, none, some, List, [], ◌∷◌,
  ◌++◌, ◌==◌, any, if◌then◌else◌, append_assoc, inl, inr,
}
use graphify_daemon_portfoli.Prelude.Exec.{Error, Result, ok, raise, Result-cases}
use graphify_daemon_portfoli.Vault.Batching.{FileChange, Batch}
use graphify_daemon_portfoli.Vault.Batching.Watcher.{
  Watcher, queue_change, flush, cancelled, warn_depth, restart_timer,
}
use graphify_daemon_portfoli.Vault.Batching.Watcher.Delivery.{
  pending-queue, pending-flush, scheduled-queue, rejecting-flush,
}
use graphify_daemon_portfoli.Graphify.{Graphify}
use graphify_daemon_portfoli.Daemon.{Daemon}
use graphify_daemon_portfoli.Daemon.Threads.{
  Turn, Caller, Phase, following, Owner, Stage, Event, handed, System, Work, Step, Reach, here,
  next, begin, run_phase, continue, release, after_phase, after_queue, after_fire, after_flush,
  IsFresh, fires, flushes, takes, runs, works, event,
}
use graphify_daemon_portfoli.Daemon.Threads.Watch.{IsUntouched, phase-IsUntouched}

-- A batch of one change.
abbrev pub alone : FileChange → Batch
alone c = record { changes = c ∷ [] }

module _ (g : Graphify) where
  -- A timer's thread takes the lock for a batch; these others stay in hand.
  abbrev after_take : Batch → Turn → List Batch → System g → System g
  after_take b t others s = record s {
    owner = Owner.compiling Caller.by_timer b t Phase.extracting;
    in_hand = others;
  }

  -- A compilation that has ended, whether it returned or raised.
  record HasCompiled (s : System g) (b : Batch) (t : Turn) : Type 0 where
    at : System g
    reached : {z : System g} → Reach g z s → Reach g z at
    owner : at.owner ≡ Owner.free
    in_hand : at.in_hand ≡ s.in_hand
    accepted : at.accepted ≡ s.accepted
    history : at.history ≡ s.history ++ Event.compiles b t ∷ []
    pending : at.daemon.watcher.pending ≡ s.daemon.watcher.pending

  ends_now :
      (s : System g) (b : Batch) (t : Turn) (p : Phase)
      → s.owner ≡ Owner.compiling Caller.by_timer b t p
      → (r : Result (Unit {0}))
      → after_phase g Caller.by_timer b t p s
        ≡ release g Caller.by_timer b t r (record s { daemon = (run_phase g p b t s.daemon).1 })
      → HasCompiled s b t
  ends_now s b t p o r e = record {
    at = after_phase g Caller.by_timer b t p s;
    reached = λ q. next q (works (runs Caller.by_timer b t p o));
    owner = rw e refl;
    in_hand = rw e refl;
    accepted = rw e refl;
    history = rw e refl;
    pending = rw e (phase-IsUntouched g p b t s.daemon).pending;
  }

  goes_on :
      (s : System g) (b : Batch) (t : Turn) (p q : Phase)
      → s.owner ≡ Owner.compiling Caller.by_timer b t p
      → after_phase g Caller.by_timer b t p s ≡ record s {
        daemon = (run_phase g p b t s.daemon).1;
        owner = Owner.compiling Caller.by_timer b t q;
      }
      → ((u : System g) → u.owner ≡ Owner.compiling Caller.by_timer b t q → HasCompiled u b t)
      → HasCompiled s b t
  goes_on s b t p q o e later =
      let c = later (after_phase g Caller.by_timer b t p s) (rw e refl) in
      record {
        at = c.at;
        reached = λ z. c.reached (next z (works (runs Caller.by_timer b t p o)));
        owner = c.owner;
        in_hand = c.in_hand ∙ rw e refl;
        accepted = c.accepted ∙ rw e refl;
        history = c.history ∙ rw e refl;
        pending = c.pending ∙ rw e (phase-IsUntouched g p b t s.daemon).pending;
      }

  -- The lock goes on to the next part, or is released.
  moves :
      (s : System g) (b : Batch) (t : Turn) (p q : Phase)
      → following p ≡ some q
      → s.owner ≡ Owner.compiling Caller.by_timer b t p
      → ((u : System g) → u.owner ≡ Owner.compiling Caller.by_timer b t q → HasCompiled u b t)
      → HasCompiled s b t
  moves s b t p q f o later = elim (Result-cases (run_phase g p b t s.daemon).0) [
    | inl (u, e) ↦ goes_on s b t p q o (rw (e, f) refl) later
    | inr (x, e) ↦ ends_now s b t p o (raise x) (rw e refl)
  ]

  noting_ends :
      (t : Turn) (b : Batch) (s : System g)
      → s.owner ≡ Owner.compiling Caller.by_timer b t Phase.noting
      → HasCompiled s b t
  unfolding run_phase
  noting_ends t b s o = ends_now s b t Phase.noting o (ok tt) refl

  -- A compilation that a timer's thread has begun ends.
  compilation_ends :
      (t : Turn) (b : Batch) (s : System g)
      → s.owner ≡ Owner.compiling Caller.by_timer b t Phase.extracting
      → HasCompiled s b t
  compilation_ends t b s o = moves s b t Phase.extracting Phase.syncing refl o (λ u e.
      moves u b t Phase.syncing Phase.publishing refl e
        (λ v h. moves v b t Phase.publishing Phase.noting refl h (noting_ends t b)))

  -- A change that was queued and flushed on its own, and waits in the hand of its thread.
  record InHand (s : System g) (c : FileChange) : Type 0 where
    at : System g
    reached : {z : System g} → Reach g z s → Reach g z at
    pending : at.daemon.watcher.pending ≡ []
    accepting : at.daemon.watcher.rejecting_events ≡ false
    owner : at.owner ≡ s.owner
    in_hand : at.in_hand ≡ s.in_hand ++ alone c ∷ []
    accepted : at.accepted ≡ s.accepted ++ c ∷ []
    history : at.history ≡ s.history

  rejecting-queue :
      (c : FileChange) (w : Watcher) → (queue_change c w).rejecting_events ≡ w.rejecting_events
  unfolding queue_change warn_depth restart_timer
  rejecting-queue c w = ground arith

  taken-flush_one :
      (c : FileChange) (w : Watcher) → w.pending ≡ c ∷ [] → (flush w).0 ≡ some (alone c)
  unfolding flush
  taken-flush_one c w e = ground (arith, e)

  goes-InHand :
      (s : System g) (c : FileChange)
      → s.daemon.watcher.pending ≡ []
      → s.daemon.watcher.rejecting_events ≡ false
      → InHand s c
  goes-InHand s c p r =
      let queued = after_queue g c s in
      let (t, timer, running) = scheduled-queue c s.daemon.watcher r in
      let fired = after_fire g t queued in
      record {
        at = after_flush g fired;
        reached = λ z.
            next (next (next z (event c)) (works (fires t running)))
              (works (flushes (omega arith)));
        pending = pending-flush fired.daemon.watcher;
        accepting = rejecting-flush fired.daemon.watcher ∙ rejecting-queue c s.daemon.watcher ∙ r;
        owner = refl;
        in_hand =
            ap (λ o. handed o s.in_hand)
              (taken-flush_one c fired.daemon.watcher
                (ground (arith, pending-queue c s.daemon.watcher, r, p)));
        accepted = rw r refl;
        history = refl;
      }

  -- Two changes that are accepted one after the other, each flushed in a batch of its own, can be compiled
  -- in the other order, after which no lock is held, no batch is in hand and nothing is pending.
  pub batches_overtake :
      (d : Daemon g) (c1 c2 : FileChange) (t1 t2 : Turn)
      → IsFresh g d
      → (s : System g) × Reach g (begin g d) s
        × (s.accepted ≡ c1 ∷ c2 ∷ [])
        × (s.history ≡ Event.compiles (alone c2) t2 ∷ Event.compiles (alone c1) t1 ∷ [])
        × (s.owner ≡ Owner.free)
        × (s.in_hand ≡ [])
        × (s.daemon.watcher.pending ≡ [])
  batches_overtake d c1 c2 t1 t2 f =
      let first = goes-InHand (begin g d) c1 f.nothing f.accepting in
      let second = goes-InHand first.at c2 first.pending first.accepting in
      let free = second.owner ∙ first.owner in
      let waiting = second.in_hand ∙ ap (λ bs. bs ++ alone c2 ∷ []) first.in_hand in
      let overtaken =
        compilation_ends t2 (alone c2) (after_take (alone c2) t2 (alone c1 ∷ []) second.at) refl in
      let last = compilation_ends t1 (alone c1) (after_take (alone c1) t1 [] overtaken.at) refl in
      (
        last.at,
        last.reached (
            next
              (overtaken.reached (
                next (second.reached (first.reached here))
                  (works (takes (alone c2) (alone c1 ∷ []) [] t2 free waiting))))
              (works (takes (alone c1) [] [] t1 overtaken.owner overtaken.in_hand))),
        last.accepted
            ∙ overtaken.accepted
            ∙ second.accepted
            ∙ ap (λ cs. cs ++ c2 ∷ []) first.accepted,
        last.history
            ∙ ap (λ h. h ++ Event.compiles (alone c1) t1 ∷ [])
                (overtaken.history
                  ∙ ap (λ h. h ++ Event.compiles (alone c2) t2 ∷ [])
                      (second.history ∙ first.history)),
        last.owner,
        last.in_hand,
        last.pending ∙ overtaken.pending ∙ second.pending,
      )
