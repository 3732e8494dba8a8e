-- ===== src/Daemon/Threads/Settling/Rest.antt =====
-- daemon.py and batching.py: from every state the threads come to rest, and everything accepted is compiled.
use graphify_daemon_portfoli.Prelude.{
  ℕ, zero, suc, ◌+◌, ◌<◌, ◌≡◌, refl, ap, ◌∙◌, ◌⊎◌, inl, inr, arith, Bool, true, false, List, [],
  ◌∷◌, ◌==◌, any,
}
use graphify_daemon_portfoli.Vault.Batching.{FileChange, Batch}
use graphify_daemon_portfoli.Vault.Batching.Watcher.Delivery.{changes_of}
use graphify_daemon_portfoli.Graphify.{Graphify}
use graphify_daemon_portfoli.Daemon.{Daemon}
use graphify_daemon_portfoli.Daemon.Threads.{
  Turn, Owner, Stage, System, Work, Reach, next, begin, IsFresh, fires, fires_idle, flushes, takes,
  takes_drained, runs, takes_idle, runs_cycle, rejects, drains, stops, takes_persist, runs_persist,
  finishes, works,
}
use graphify_daemon_portfoli.Daemon.Threads.Places.{IsPlaced, place}
use graphify_daemon_portfoli.Daemon.Threads.Places.Reached.{
  begin-IsPlaced, Step-IsPlaced, Reach-IsPlaced,
}
use graphify_daemon_portfoli.Daemon.Threads.Accounting.{accounted}
use graphify_daemon_portfoli.Daemon.Threads.Accounting.Tally.{tally, compiled_of, awaited}
use graphify_daemon_portfoli.Daemon.Threads.Progress.{work_left, Works, still, later, Work-shrinks}
use graphify_daemon_portfoli.Daemon.Threads.Settling.{
  IsQuiet, Ended, Reach-IsScheduled, Work-accepted, quiet-pending,
}

first_runs : (t : ℕ) (us : List ℕ) → any (λ u. u == t) (t ∷ us) ≡ true
first_runs t us = ground arith

-- Where a thread that shuts down goes on, the lock being free.
data IsGoing : Stage → Type 0 where
  at_claimed : IsGoing Stage.claimed
  at_rejected : IsGoing Stage.rejected
  at_drained : (b : Batch) → IsGoing (Stage.drained b)
  at_compiled : IsGoing Stage.compiled
  at_unwatched : IsGoing Stage.unwatched
  at_persisted : IsGoing Stage.persisted

going : (st : Stage) → (place st == 4) ≡ false → (place st == 8) ≡ false → Ended st ⊎ IsGoing st
unfolding place
going Stage.unclaimed h k = inl (inl refl)
going Stage.claimed h k = inr at_claimed
going Stage.rejected h k = inr at_rejected
going (Stage.drained b) h k = inr (at_drained b)
going Stage.in_batch h k = cc
going (Stage.failed e) h k = inl (inr (inr (e, refl)))
going Stage.compiled h k = inr at_compiled
going Stage.unwatched h k = inr at_unwatched
going Stage.in_persist h k = cc
going Stage.persisted h k = inr at_persisted
going Stage.finished h k = inl (inr (inl refl))

in_persist_only : (st : Stage) → (place st == 8) ≡ true → st ≡ Stage.in_persist
unfolding place
in_persist_only Stage.in_persist h = refl
in_persist_only Stage.unclaimed h = cc
in_persist_only Stage.claimed h = cc
in_persist_only Stage.rejected h = cc
in_persist_only (Stage.drained b) h = cc
in_persist_only Stage.in_batch h = cc
in_persist_only (Stage.failed e) h = cc
in_persist_only Stage.compiled h = cc
in_persist_only Stage.unwatched h = cc
in_persist_only Stage.persisted h = cc
in_persist_only Stage.finished h = cc

-- One condition of rest after another, up to the first that fails.
infixl 5 ◌>>=◌
abbrev ◌>>=◌ : {A B W : Type 0} → A ⊎ W → (A → B ⊎ W) → B ⊎ W
inl a >>= f = f a
inr w >>= f = inr w

module _ (g : Graphify) where
  -- Some thread has a step of work to do.
  abbrev pub CanWork : System g → Type 0
  CanWork s = (t : System g) × Work g s t

  going-CanWork :
      (turn : Turn) (s : System g) (st : Stage)
      → s.owner ≡ Owner.free
      → s.stage ≡ st
      → IsGoing st
      → CanWork s
  going-CanWork turn s st o e at_claimed = (_, rejects e)
  going-CanWork turn s st o e at_rejected = (_, drains e)
  going-CanWork turn s st o e (at_drained b) = (_, takes_drained b turn o e)
  going-CanWork turn s st o e at_compiled = (_, stops e)
  going-CanWork turn s st o e at_unwatched = (_, takes_persist o e)
  going-CanWork turn s st o e at_persisted = (_, finishes e)

  pub persisting_place :
      (s : System g) → IsPlaced g s → s.owner ≡ Owner.persisting → s.stage ≡ Stage.in_persist
  persisting_place s i o = in_persist_only s.stage (ground (arith, i.in_persist, o))

  held-CanWork : (s : System g) → IsPlaced g s → (s.owner ≡ Owner.free) ⊎ CanWork s
  held-CanWork s i = from s.owner refl
    where
      from : (o : Owner) → s.owner ≡ o → (s.owner ≡ Owner.free) ⊎ CanWork s
      from Owner.free e = inl e
      from Owner.persisting e = inr (_, runs_persist e (persisting_place s i e))
      from (Owner.compiling who b t p) e = inr (_, runs who b t p e)
      from (Owner.cycling t) e = inr (_, runs_cycle t e)

  stage-CanWork :
      (turn : Turn) (s : System g) → IsPlaced g s → s.owner ≡ Owner.free → Ended s.stage ⊎ CanWork s
  stage-CanWork turn s i o =
      elim (going s.stage (ground (arith, i.in_batch, o)) (ground (arith, i.in_persist, o))) [
        | inl ended ↦ inl ended
        | inr on ↦ inr (going-CanWork turn s s.stage o refl on)
      ]

  due-CanWork : (s : System g) (n : ℕ) → s.due ≡ n → (s.due ≡ 0) ⊎ CanWork s
  due-CanWork s zero e = inl e
  due-CanWork s (suc n) e = inr (_, flushes (omega (arith, e)))

  idle_due-CanWork :
      (turn : Turn) (s : System g) (n : ℕ)
      → s.owner ≡ Owner.free
      → s.idle_due ≡ n
      → (s.idle_due ≡ 0) ⊎ CanWork s
  idle_due-CanWork turn s zero o e = inl e
  idle_due-CanWork turn s (suc n) o e = inr (_, takes_idle turn o (omega (arith, e)))

  hand-CanWork :
      (turn : Turn) (s : System g) (bs : List Batch)
      → s.owner ≡ Owner.free
      → s.in_hand ≡ bs
      → (s.in_hand ≡ []) ⊎ CanWork s
  hand-CanWork turn s [] o e = inl e
  hand-CanWork turn s (b ∷ bs) o e = inr (_, takes b [] bs turn o e)

  armed-CanWork :
      (s : System g) (us : List ℕ)
      → s.daemon.watcher.armed ≡ us
      → (s.daemon.watcher.armed ≡ []) ⊎ CanWork s
  armed-CanWork s [] e = inl e
  armed-CanWork s (u ∷ us) e = inr (_, fires u (rw e (first_runs u us)))

  idle_armed-CanWork :
      (s : System g) (us : List ℕ)
      → s.daemon.watcher.idle_armed ≡ us
      → (s.daemon.watcher.idle_armed ≡ []) ⊎ CanWork s
  idle_armed-CanWork s [] e = inl e
  idle_armed-CanWork s (u ∷ us) e = inr (_, fires_idle u (rw e (first_runs u us)))

  -- The threads never wait for each other in a circle: a state that is not quiet has a step of work.
  pub no_deadlock : (turn : Turn) (s : System g) → IsPlaced g s → IsQuiet g s ⊎ CanWork s
  no_deadlock turn s i = do
    owner ← held-CanWork s i
    in_hand ← hand-CanWork turn s s.in_hand owner refl
    due ← due-CanWork s s.due refl
    idle_due ← idle_due-CanWork turn s s.idle_due owner refl
    armed ← armed-CanWork s s.daemon.watcher.armed refl
    idle_armed ← idle_armed-CanWork s s.daemon.watcher.idle_armed refl
    ended ← stage-CanWork turn s i owner
    inl (record {
      owner = owner;
      in_hand = in_hand;
      due = due;
      idle_due = idle_due;
      armed = armed;
      idle_armed = idle_armed;
      ended = ended;
    })

  -- Where work from a state comes to rest.
  record Rests (s : System g) : Type 0 where
    steps : ℕ
    at : System g
    run : Works g s steps at
    quiet : IsQuiet g at
    reached : (d : Daemon g) → Reach g (begin g d) s → Reach g (begin g d) at
    accepted : at.accepted ≡ s.accepted

  -- Enough fuel is the work that is left.
  Rests-from :
      (turn : Turn) (n : ℕ) {k : ℕ} (s t : System g)
      → Works g s k t
      → ((d : Daemon g) → Reach g (begin g d) s → Reach g (begin g d) t)
      → t.accepted ≡ s.accepted
      → IsPlaced g t
      → work_left g t < n
      → Rests s
  Rests-from turn zero s t ws r a i h = absurd (omega (arith, h))
  Rests-from turn (suc n) {k} s t ws r a i h = elim (no_deadlock turn t i) [
    | inl quiet ↦ record { steps = k; at = t; run = ws; quiet = quiet; reached = r; accepted = a }
    | inr (u, w) ↦
        Rests-from turn n s u (later ws w) (λ d p. next (r d p) (works w)) (Work-accepted g w ∙ a)
          (Step-IsPlaced g (works w) i) (omega (arith, h, Work-shrinks g w))
  ]

  Ended-awaits : (p : FileChange → Bool) (st : Stage) → Ended st → tally p (awaited st) ≡ 0
  unfolding tally
  Ended-awaits p st (inl e) = rw e refl
  Ended-awaits p st (inr (inl e)) = rw e refl
  Ended-awaits p st (inr (inr (x, e))) = rw e refl

  -- In a quiet state, whatever was accepted was compiled.
  quiet-compiled :
      (p : FileChange → Bool) (d : Daemon g) (t : System g)
      → IsFresh g d
      → Reach g (begin g d) t
      → IsQuiet g t
      → t.daemon.watcher.pending ≡ []
      → tally p (compiled_of t.history) ≡ tally p t.accepted
  unfolding tally changes_of
  quiet-compiled p d t f r q e =
      ground (arith, accounted g p d t f r, Ended-awaits p t.stage q.ended, e, q.in_hand, q.owner)

  -- From every state that the threads reach from a running daemon whose watcher has seen nothing, steps
  -- of work alone lead to a state in which no thread has anything to do: no lock is held, no timer runs
  -- or waits, no batch is in hand, and a shutdown that was called has ended. There nothing is pending,
  -- and as many changes in compiled batches satisfy a test as accepted ones, for every test.
  pub settles :
      (turn : Turn) (d : Daemon g) (s : System g)
      → IsFresh g d
      → Reach g (begin g d) s
      → (n : ℕ) × (t : System g) × Works g s n t
        × IsQuiet g t
        × (t.daemon.watcher.pending ≡ [])
        × ((p : FileChange → Bool) → tally p (compiled_of t.history) ≡ tally p s.accepted)
  settles turn d s f r =
      let placed = Reach-IsPlaced g r (begin-IsPlaced g d f) in
      let rests =
        Rests-from turn (work_left g s + 1) s s still (λ d p. p) refl placed (omega arith) in
      let reached = rests.reached d r in
      let empty =
        quiet-pending g rests.at rests.quiet
          (Reach-IsScheduled g reached (begin-IsPlaced g d f) (inl f.nothing)) in
      (
        rests.steps,
        rests.at,
        rests.run,
        rests.quiet,
        empty,
        λ p. quiet-compiled p d rests.at f reached rests.quiet empty ∙ ap (tally p) rests.accepted,
      )
