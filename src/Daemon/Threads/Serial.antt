-- ===== src/Daemon/Threads/Serial.antt =====
-- daemon.py and shutdown.py: the coordinator's lock makes the compilations serial, although each is many steps
-- between which the other threads run.
use graphify_daemon_portfoli.Prelude.{◌≡◌, refl, sym, ap, subst, ◌∙◌, List, [], ◌∷◌, ◌++◌}
use graphify_daemon_portfoli.Prelude.Exec.{Result, ok, raise, Exec, ◌>>◌, pure, bind_result}
use graphify_daemon_portfoli.Prelude.Frame.{IsBlind, bind-IsBlind, agree_rest}
use graphify_daemon_portfoli.Vault.Batching.{Batch}
use graphify_daemon_portfoli.Graphify.{Graphify}
use graphify_daemon_portfoli.Daemon.{Daemon, compile_batch, on_idle_cadence, persist_on_shutdown}
use graphify_daemon_portfoli.Daemon.Threads.{
  Turn, Caller, Phase, following, Owner, Event, System, Work, Step, Reach, here, next, begin,
  run_phase, continue, after_phase, after_fire, after_idle_fire, after_flush, after_reject,
  after_drain, after_stop, after_finish, after_queue, after_claim, fires, fires_idle, flushes,
  takes, takes_drained, runs, takes_idle, runs_cycle, rejects, drains, stops, takes_persist,
  runs_persist, finishes, works, event, claims, returns_at_once,
}
use graphify_daemon_portfoli.Daemon.Threads.Sealed.{sealed, phase-IsBlind, cycle-IsBlind}

module _ (g : Graphify) where
  -- One body under the coordinator's lock, run as a whole.
  unfoldable pub run_event : Event → Daemon g → Daemon g
  run_event (Event.compiles b t) d = (compile_batch g t.files t.schedule t.moment b d).1
  run_event (Event.cycles t) d = on_idle_cadence g t.schedule t.moment.asked t.moment.ended d
  run_event Event.persists d = persist_on_shutdown g d

  -- The bodies of a history, one after another, with nothing between them.
  unfoldable pub replay : List Event → Daemon g → Daemon g
  unfolding run_event
  replay [] d = d
  replay (e ∷ es) d = replay es (run_event e d)

  replay-append :
      (es : List Event) (e : Event) (d : Daemon g)
      → replay (es ++ e ∷ []) d ≡ run_event e (replay es d)
  unfolding replay
  replay-append [] e d = refl
  replay-append (a ∷ es) e d = replay-append es e (run_event a d)

  -- What of a compilation is left after one of its parts.
  after_syncing : Batch → Turn → Exec (Daemon g) Unit
  after_syncing b t = run_phase g Phase.publishing b t >> run_phase g Phase.noting b t

  after_extracting : Batch → Turn → Exec (Daemon g) Unit
  unfolding after_syncing
  after_extracting b t = run_phase g Phase.syncing b t >> after_syncing b t

  rest_of : Phase → Batch → Turn → Exec (Daemon g) Unit
  unfolding after_extracting
  rest_of Phase.noting b t = pure tt
  rest_of Phase.publishing b t = run_phase g Phase.noting b t
  rest_of Phase.syncing b t = after_syncing b t
  rest_of Phase.extracting b t = after_extracting b t

  from_phase : Phase → Batch → Turn → Exec (Daemon g) Unit
  unfolding rest_of
  from_phase p b t = run_phase g p b t >> rest_of p b t

  from_start :
      (b : Batch) (t : Turn)
      → from_phase Phase.extracting b t ≡ compile_batch g t.files t.schedule t.moment b
  unfolding from_phase run_phase compile_batch
  from_start b t = refl

  syncing-IsBlind : (b : Batch) (t : Turn) → IsBlind (sealed g) (after_syncing b t)
  unfolding after_syncing
  syncing-IsBlind b t =
      bind-IsBlind (sealed g) _ _ (phase-IsBlind g Phase.publishing b t)
        (λ u. phase-IsBlind g Phase.noting b t)

  rest-IsBlind : (p : Phase) (b : Batch) (t : Turn) → IsBlind (sealed g) (rest_of p b t)
  unfolding rest_of
  rest-IsBlind Phase.noting b t = record { result = λ d. refl; rest = λ d. refl }
  rest-IsBlind Phase.publishing b t = phase-IsBlind g Phase.noting b t
  rest-IsBlind Phase.syncing b t = syncing-IsBlind b t
  rest-IsBlind Phase.extracting b t =
      bind-IsBlind (sealed g) _ _ (phase-IsBlind g Phase.syncing b t) (λ u. syncing-IsBlind b t)

  from-IsBlind : (p : Phase) (b : Batch) (t : Turn) → IsBlind (sealed g) (from_phase p b t)
  unfolding from_phase
  from-IsBlind p b t = bind-IsBlind (sealed g) _ _ (phase-IsBlind g p b t) (λ u. rest-IsBlind p b t)

  -- What the daemon will be when the holder of the lock, if it compiles, is through.
  abbrev outcome : Owner → Daemon g → Daemon g
  outcome (Owner.compiling who b t p) d = (from_phase p b t d).1
  outcome Owner.free d = d
  outcome Owner.persisting d = d
  outcome (Owner.cycling t) d = d

  abbrev pending_event : Owner → List Event
  pending_event (Owner.compiling who b t p) = Event.compiles b t ∷ []
  pending_event Owner.free = []
  pending_event Owner.persisting = []
  pending_event (Owner.cycling t) = []

  -- The outcome is that of the whole history, the compilation that is under way included.
  abbrev IsSerial : Daemon g → System g → Type 0
  IsSerial d s =
      sealed g (outcome s.owner s.daemon)
      ≡ sealed g (replay (pending_event s.owner) (replay s.history d))

  outcome-sealed :
      (o : Owner) (d d' : Daemon g)
      → sealed g d ≡ sealed g d'
      → sealed g (outcome o d) ≡ sealed g (outcome o d')
  outcome-sealed Owner.free d d' e = e
  outcome-sealed Owner.persisting d d' e = e
  outcome-sealed (Owner.cycling t) d d' e = e
  outcome-sealed (Owner.compiling who b t p) d d' e =
      agree_rest (sealed g) (from-IsBlind p b t) d d' e

  -- A step of another thread.
  outside :
      (d : Daemon g) (s t : System g)
      → sealed g t.daemon ≡ sealed g s.daemon
      → t.owner ≡ s.owner
      → t.history ≡ s.history
      → IsSerial d s
      → IsSerial d t
  outside d s t e o h i = rw (o, h) (outcome-sealed s.owner t.daemon s.daemon e ∙ i)

  -- The same, the owner being known.
  held_by :
      (d : Daemon g) (s : System g) (o : Owner)
      → s.owner ≡ o
      → IsSerial d s
      → sealed g (outcome o s.daemon) ≡ sealed g (replay (pending_event o) (replay s.history d))
  held_by d s o e i =
      subst
        (λ x.
          sealed g (outcome x s.daemon) ≡ sealed g (replay (pending_event x) (replay s.history d)))
        e i

  -- A body has ended, and stands in the history.
  recorded :
      (d : Daemon g) (s : System g) (e : Event) (d' : Daemon g)
      → sealed g d' ≡ sealed g (run_event e (replay s.history d))
      → sealed g d' ≡ sealed g (replay (s.history ++ e ∷ []) d)
  recorded d s e d' h = h ∙ ap (sealed g) (sym (replay-append s.history e d))

  -- A compilation takes the lock.
  starts :
      (d : Daemon g) (s : System g) (b : Batch) (t : Turn)
      → s.owner ≡ Owner.free
      → IsSerial d s
      → sealed g (from_phase Phase.extracting b t s.daemon).1
        ≡ sealed g (replay (Event.compiles b t ∷ []) (replay s.history d))
  unfolding replay
  starts d s b t o i =
      agree_rest (sealed g) (from-IsBlind Phase.extracting b t) s.daemon (replay s.history d)
        (held_by d s Owner.free o i)
      ∙ ap (λ m. sealed g (m (replay s.history d)).1) (from_start b t)

  continue-IsSerial :
      (d : Daemon g) (who : Caller) (b : Batch) (t : Turn) (p : Phase) (r : Result (Unit {0}))
      (s : System g)
      → s.owner ≡ Owner.compiling who b t p
      → sealed g (bind_result r (λ u. rest_of p b t) s.daemon).1
        ≡ sealed g (run_event (Event.compiles b t) (replay s.history d))
      → IsSerial d (continue g who b t (following p) r s)
  unfolding replay from_phase rest_of run_phase after_extracting after_syncing
  continue-IsSerial d who b t p (raise e) s o i = recorded d s (Event.compiles b t) s.daemon i
  continue-IsSerial d who b t Phase.noting (ok u) s o i =
      recorded d s (Event.compiles b t) s.daemon i
  continue-IsSerial d who b t Phase.publishing (ok u) s o i = i
  continue-IsSerial d who b t Phase.syncing (ok u) s o i = i
  continue-IsSerial d who b t Phase.extracting (ok u) s o i = i

  phase-IsSerial :
      (d : Daemon g) (s : System g) (who : Caller) (b : Batch) (t : Turn) (p : Phase)
      → s.owner ≡ Owner.compiling who b t p
      → IsSerial d s
      → IsSerial d (after_phase g who b t p s)
  unfolding replay from_phase
  phase-IsSerial d s who b t p o i =
      continue-IsSerial d who b t p (run_phase g p b t s.daemon).0
        (record s { daemon = (run_phase g p b t s.daemon).1 }) o
        (held_by d s (Owner.compiling who b t p) o i)

  Work-IsSerial : {s t : System g} (d : Daemon g) → Work g s t → IsSerial d s → IsSerial d t
  unfolding replay persist_on_shutdown
  Work-IsSerial {s} d (fires t e) i = outside d s (after_fire g t s) refl refl refl i
  Work-IsSerial {s} d (fires_idle t e) i = outside d s (after_idle_fire g t s) refl refl refl i
  Work-IsSerial {s} d (flushes due) i = outside d s (after_flush g s) refl refl refl i
  Work-IsSerial {s} d (takes b xs ys t o e) i = starts d s b t o i
  Work-IsSerial {s} d (takes_drained b t o st) i = starts d s b t o i
  Work-IsSerial {s} d (runs who b t p o) i = phase-IsSerial d s who b t p o i
  Work-IsSerial {s} d (takes_idle t o e) i = held_by d s Owner.free o i
  Work-IsSerial {s} d (runs_cycle t o) i =
      recorded d s (Event.cycles t)
        (on_idle_cadence g t.schedule t.moment.asked t.moment.ended s.daemon)
        (agree_rest (sealed g) (cycle-IsBlind g t) s.daemon (replay s.history d)
          (held_by d s (Owner.cycling t) o i))
  Work-IsSerial {s} d (rejects st) i = outside d s (after_reject g s) refl refl refl i
  Work-IsSerial {s} d (drains st) i = outside d s (after_drain g s) refl refl refl i
  Work-IsSerial {s} d (stops st) i = outside d s (after_stop g s) refl refl refl i
  Work-IsSerial {s} d (takes_persist o st) i = held_by d s Owner.free o i
  Work-IsSerial {s} d (runs_persist o st) i =
      recorded d s Event.persists (persist_on_shutdown g s.daemon)
        (ap (λ x. sealed g (persist_on_shutdown g x)) (held_by d s Owner.persisting o i))
  Work-IsSerial {s} d (finishes st) i = outside d s (after_finish g s) refl refl refl i

  Step-IsSerial : {s t : System g} (d : Daemon g) → Step g s t → IsSerial d s → IsSerial d t
  Step-IsSerial d (works w) i = Work-IsSerial d w i
  Step-IsSerial {s} d (event c) i = outside d s (after_queue g c s) refl refl refl i
  Step-IsSerial {s} d (claims e) i = outside d s (after_claim g s) refl refl refl i
  Step-IsSerial d (returns_at_once e) i = i

  Reach-IsSerial : (d : Daemon g) {t : System g} → Reach g (begin g d) t → IsSerial d t
  unfolding replay
  Reach-IsSerial d here = refl
  Reach-IsSerial d (next r st) = Step-IsSerial d st (Reach-IsSerial d r)

  -- The same while the artifacts are about to be persisted.
  pub serial_persisting :
      (d : Daemon g) (s : System g)
      → Reach g (begin g d) s
      → s.owner ≡ Owner.persisting
      → sealed g s.daemon ≡ sealed g (replay s.history d)
  unfolding replay
  serial_persisting d s r o = held_by d s Owner.persisting o (Reach-IsSerial d r)

  -- Whatever the threads do: when the coordinator's lock is free, everything that the daemon holds
  -- beside its watcher and its lifecycle state (the extraction cache, the log, the index of files, the
  -- served snapshot, the tracker and the artifacts on disk) is what the bodies that ran under the lock
  -- make of it one after another, each as a whole, in the order in which they ended.
  pub serial :
      (d : Daemon g) (s : System g)
      → Reach g (begin g d) s
      → s.owner ≡ Owner.free
      → sealed g s.daemon ≡ sealed g (replay s.history d)
  unfolding replay
  serial d s r o = held_by d s Owner.free o (Reach-IsSerial d r)
