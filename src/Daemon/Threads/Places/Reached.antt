-- ===== src/Daemon/Threads/Places/Reached.antt =====
-- daemon.py: every step of the threads leaves the shutdown in step with the lock, the state and the watcher.
use graphify_daemon_portfoli.Prelude.{◌-◌, ◌≡◌, refl, sym, ◌∙◌, arith, ◌++◌, Option-cases, inl, inr}
use graphify_daemon_portfoli.Vault.Batching.{FileChange}
use graphify_daemon_portfoli.Vault.Batching.Watcher.{
  queue_change, drain_pending_batch, reject_new_events, stop, warn_depth, restart_timer,
}
use graphify_daemon_portfoli.Vault.Batching.Watcher.Delivery.{
  pending-queue, pending-flush, pending-drain, rejecting-flush, rejecting-drain,
}
use graphify_daemon_portfoli.Graphify.{Graphify}
use graphify_daemon_portfoli.Daemon.{
  DaemonState, Daemon, persist_on_shutdown, on_idle_cadence, run_cycle,
}
use graphify_daemon_portfoli.Daemon.Threads.{
  Turn, Caller, Phase, Owner, Stage, Event, System, Work, Step, Reach, here, next, begin,
  after_fire, after_idle_fire, after_queue, after_flush, after_cycle, after_claim, after_drain,
  IsFresh, fires, fires_idle, flushes, takes, takes_drained, runs, takes_idle, runs_cycle, rejects,
  drains, stops, takes_persist, runs_persist, finishes, works, event, claims, returns_at_once,
}
use graphify_daemon_portfoli.Daemon.Threads.Places.{
  place, state_at, persists_in, persists-append, IsPlaced, keeps,
}
use graphify_daemon_portfoli.Daemon.Threads.Places.Compiling.{phase-IsPlaced}

module _ (g : Graphify) where
  queue-IsPlaced : (s : System g) (c : FileChange) → IsPlaced g s → IsPlaced g (after_queue g c s)
  unfolding queue_change warn_depth restart_timer
  queue-IsPlaced s c i =
      keeps g s (after_queue g c s) i refl refl refl refl (ground arith)
        (λ e r. ground (arith, pending-queue c s.daemon.watcher)) refl

  flush-IsPlaced : (s : System g) → IsPlaced g s → IsPlaced g (after_flush g s)
  flush-IsPlaced s i =
      keeps g s (after_flush g s) i refl refl refl refl (rejecting-flush s.daemon.watcher)
        (λ e r. pending-flush s.daemon.watcher) refl

  cycle-IsPlaced :
      (s : System g) (t : Turn)
      → s.owner ≡ Owner.cycling t
      → IsPlaced g s
      → IsPlaced g (after_cycle g t s)
  unfolding on_idle_cadence run_cycle persists_in
  cycle-IsPlaced s t o i =
      keeps g s (after_cycle g t s) i (ground (arith, o)) (ground (arith, o)) refl refl refl
        (λ e h. e) (ground (arith, persists-append s.history (Event.cycles t)))

  drain-IsPlaced :
      (s : System g) → s.stage ≡ Stage.rejected → IsPlaced g s → IsPlaced g (after_drain g s)
  unfolding place state_at
  drain-IsPlaced s e i = elim (Option-cases (drain_pending_batch s.daemon.watcher).0) [
    | inl none_left ↦ record {
      in_batch = ground (arith, none_left, i.in_batch, e);
      in_persist = ground (arith, none_left, i.in_persist, e);
      state = ground (arith, none_left, i.state, e);
      rejecting = ground (arith, none_left, i.rejecting, e, rejecting-drain s.daemon.watcher);
      emptied = λ h. pending-drain s.daemon.watcher;
      persisted = ground (arith, none_left, i.persisted, e);
    }
    | inr (b, taken) ↦ record {
      in_batch = ground (arith, taken, i.in_batch, e);
      in_persist = ground (arith, taken, i.in_persist, e);
      state = ground (arith, taken, i.state, e);
      rejecting = ground (arith, taken, i.rejecting, e, rejecting-drain s.daemon.watcher);
      emptied = λ h. pending-drain s.daemon.watcher;
      persisted = ground (arith, taken, i.persisted, e);
    }
  ]

  Work-IsPlaced : {s t : System g} → Work g s t → IsPlaced g s → IsPlaced g t
  unfolding place state_at persists_in reject_new_events stop persist_on_shutdown
  Work-IsPlaced {s} (fires t e) i =
      keeps g s (after_fire g t s) i refl refl refl refl refl (λ p r. p) refl
  Work-IsPlaced {s} (fires_idle t e) i =
      keeps g s (after_idle_fire g t s) i refl refl refl refl refl (λ p r. p) refl
  Work-IsPlaced {s} (flushes h) i = flush-IsPlaced s i
  Work-IsPlaced {s} (takes b xs ys t o h) i =
      keeps g s
        (record s {
          owner = Owner.compiling Caller.by_timer b t Phase.extracting;
          in_hand = xs ++ ys;
        })
        i (ground (arith, o)) (ground (arith, o)) refl refl refl (λ e h. e) refl
  Work-IsPlaced {s} (takes_drained b t o st) i = record {
    in_batch = refl;
    in_persist = refl;
    state = ground (arith, i.state, st);
    rejecting = ground (arith, i.rejecting, st);
    emptied = λ e. i.emptied (ground (arith, st));
    persisted = ground (arith, i.persisted, st);
  }
  Work-IsPlaced {s} (runs who b t p o) i = phase-IsPlaced g s who b t p o i
  Work-IsPlaced {s} (takes_idle t o h) i =
      keeps g s (record s { owner = Owner.cycling t; idle_due = s.idle_due - 1 }) i
        (ground (arith, o)) (ground (arith, o)) refl refl refl (λ e h. e) refl
  Work-IsPlaced {s} (runs_cycle t o) i = cycle-IsPlaced s t o i
  Work-IsPlaced {s} (rejects st) i = record {
    in_batch = ground (arith, i.in_batch, st);
    in_persist = ground (arith, i.in_persist, st);
    state = ground (arith, i.state, st);
    rejecting = refl;
    emptied = λ e. absurd (cc);
    persisted = ground (arith, i.persisted, st);
  }
  Work-IsPlaced {s} (drains st) i = drain-IsPlaced s st i
  Work-IsPlaced {s} (stops st) i = record {
    in_batch = ground (arith, i.in_batch, st);
    in_persist = ground (arith, i.in_persist, st);
    state = ground (arith, i.state, st);
    rejecting = ground (arith, i.rejecting, st);
    emptied = λ e. i.emptied (ground (arith, st));
    persisted = ground (arith, i.persisted, st);
  }
  Work-IsPlaced {s} (takes_persist o st) i = record {
    in_batch = refl;
    in_persist = refl;
    state = ground (arith, i.state, st);
    rejecting = ground (arith, i.rejecting, st);
    emptied = λ e. i.emptied (ground (arith, st));
    persisted = ground (arith, i.persisted, st);
  }
  Work-IsPlaced {s} (runs_persist o st) i = record {
    in_batch = refl;
    in_persist = refl;
    state = ground (arith, i.state, st);
    rejecting = ground (arith, i.rejecting, st);
    emptied = λ e. i.emptied (ground (arith, st));
    persisted = ground (arith, persists-append s.history Event.persists, i.persisted, st);
  }
  Work-IsPlaced {s} (finishes st) i = record {
    in_batch = ground (arith, i.in_batch, st);
    in_persist = ground (arith, i.in_persist, st);
    state = refl;
    rejecting = ground (arith, i.rejecting, st);
    emptied = λ e. i.emptied (ground (arith, st));
    persisted = ground (arith, i.persisted, st);
  }

  unclaimed_running : (st : Stage) → state_at st ≡ DaemonState.running → st ≡ Stage.unclaimed
  unfolding state_at
  unclaimed_running Stage.unclaimed h = refl
  unclaimed_running Stage.claimed h = cc
  unclaimed_running Stage.rejected h = cc
  unclaimed_running (Stage.drained b) h = cc
  unclaimed_running Stage.in_batch h = cc
  unclaimed_running (Stage.failed e) h = cc
  unclaimed_running Stage.compiled h = cc
  unclaimed_running Stage.unwatched h = cc
  unclaimed_running Stage.in_persist h = cc
  unclaimed_running Stage.persisted h = cc
  unclaimed_running Stage.finished h = cc

  -- Only the first call of `shutdown` finds the state RUNNING.
  pub first_claim :
      (s : System g)
      → IsPlaced g s
      → s.daemon.state ≡ DaemonState.running
      → s.stage ≡ Stage.unclaimed
  first_claim s i h = unclaimed_running s.stage (sym i.state ∙ h)

  claim-IsPlaced :
      (s : System g) → s.stage ≡ Stage.unclaimed → IsPlaced g s → IsPlaced g (after_claim g s)
  unfolding place state_at
  claim-IsPlaced s st i = record {
    in_batch = ground (arith, i.in_batch, st);
    in_persist = ground (arith, i.in_persist, st);
    state = refl;
    rejecting = ground (arith, i.rejecting, st);
    emptied = λ e. absurd (cc);
    persisted = ground (arith, i.persisted, st);
  }

  pub Step-IsPlaced : {s t : System g} → Step g s t → IsPlaced g s → IsPlaced g t
  Step-IsPlaced (works w) i = Work-IsPlaced w i
  Step-IsPlaced {s} (event c) i = queue-IsPlaced s c i
  Step-IsPlaced {s} (claims h) i = claim-IsPlaced s (first_claim s i h) i
  Step-IsPlaced (returns_at_once h) i = i

  pub begin-IsPlaced : (d : Daemon g) → IsFresh g d → IsPlaced g (begin g d)
  unfolding place state_at persists_in
  begin-IsPlaced d f = record {
    in_batch = refl;
    in_persist = refl;
    state = f.running;
    rejecting = f.accepting;
    emptied = λ e. f.nothing;
    persisted = refl;
  }

  pub Reach-IsPlaced : {s t : System g} → Reach g s t → IsPlaced g s → IsPlaced g t
  Reach-IsPlaced here i = i
  Reach-IsPlaced (next r st) i = Step-IsPlaced st (Reach-IsPlaced r i)
