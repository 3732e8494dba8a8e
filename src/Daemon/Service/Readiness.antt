-- ===== src/Daemon/Service/Readiness.antt =====
-- daemon.py with health.py and snapshot.py: what the health route says while the daemon runs.
use graphify_daemon_portfoli.Prelude.{ℕ, ◌≤◌, ◌≡◌, refl, sym, inl, inr, arith, true, subst}
use graphify_daemon_portfoli.Graphify.{Graphify}
use graphify_daemon_portfoli.Compiler.Snapshot.{
  SnapshotHolder, publish, new_holder, current_version, IsFresh, publish-IsFresh,
}
use graphify_daemon_portfoli.Lifecycle.Health.{health_check}
use graphify_daemon_portfoli.Query.Tools.{Reader}
use graphify_daemon_portfoli.Query.Tools.Schema.{Validator}
use graphify_daemon_portfoli.Query.Tools.Dispatch.{begin}
use graphify_daemon_portfoli.Daemon.{Daemon}
use graphify_daemon_portfoli.Daemon.Threads.Publications.{Republished, Step-Republished}
use graphify_daemon_portfoli.Daemon.Service.{
  Service, Step, Leads, still, later, IsServed, unpublished, published, start, threads, beginning,
  finishing, timed_if-holder, health_route,
}

module _ (g : Graphify) (v : Validator) (r : Reader g) where
  -- A holder that came after another one.
  record IsAfter (h h' : SnapshotHolder g) : Type 0 where
    fresh : IsFresh g h'
    newer : current_version g h.current ≤ current_version g h'.current
    ready : (health_check g h).ready ≡ true → (health_check g h').ready ≡ true

  same-IsAfter : (h h' : SnapshotHolder g) → h' ≡ h → IsFresh g h → IsAfter h h'
  same-IsAfter h h' e f =
      subst (λ x. IsAfter h x) (sym e) (record { fresh = f; newer = omega arith; ready = λ x. x })

  Republished-IsAfter : (h h' : SnapshotHolder g) → Republished g h h' → IsFresh g h → IsAfter h h'
  unfolding publish health_check
  Republished-IsAfter h h' (inl e) f = same-IsAfter h h' e f
  Republished-IsAfter h h' (inr (graph, communities, e)) f =
      subst (λ x. IsAfter h x) (sym e)
        (record {
          fresh = publish-IsFresh g graph communities h;
          newer = omega (arith, f);
          ready = λ x. refl;
        })

  abbrev holder_of : Service g v r → SnapshotHolder g
  holder_of w = w.system.daemon.holder

  Step-IsAfter :
      {w u : Service g v r}
      → Step g v r w u
      → IsFresh g (holder_of w)
      → IsAfter (holder_of w) (holder_of u)
  Step-IsAfter {w} {u} (threads st) f =
      Republished-IsAfter (holder_of w) (holder_of u) (Step-Republished g st) f
  Step-IsAfter {w} {u} (beginning params elapsed) f =
      same-IsAfter (holder_of w) (holder_of u)
        (timed_if-holder g v r (begin g v r params w.system.daemon.holder.current w.query_cache).0
          elapsed w.system)
        f
  Step-IsAfter {w} {u} (finishing before call after elapsed e) f =
      same-IsAfter (holder_of w) (holder_of u) refl f

  Leads-IsAfter :
      {w u : Service g v r}
      → Leads g v r w u
      → IsFresh g (holder_of w)
      → IsAfter (holder_of w) (holder_of u)
  Leads-IsAfter still f = record { fresh = f; newer = omega arith; ready = λ x. x }
  Leads-IsAfter (later q st) f =
      let a = Leads-IsAfter q f in
      let b = Step-IsAfter st a.fresh in
      record {
        fresh = b.fresh;
        newer = omega (arith, a.newer, b.newer);
        ready = λ x. b.ready (a.ready x);
      }

  served-IsFresh : {h : SnapshotHolder g} → IsServed g v r h → IsFresh g h
  unfolding new_holder
  served-IsFresh unpublished = omega arith
  served-IsFresh (published {h} s graph communities) = publish-IsFresh g graph communities h

  -- Whatever the threads and the calls do after a state of the service, if the daemon started with a holder
  -- that publications made from a new one: the version of the served snapshot never goes down, and a
  -- service that reports itself ready stays ready, during and after a shutdown too.
  pub ready_for_good :
      (maxsize : ℕ) (d : Daemon g) (w u : Service g v r)
      → IsServed g v r d.holder
      → Leads g v r (start g v r maxsize d) w
      → Leads g v r w u
      → (current_version g w.system.daemon.holder.current
          ≤ current_version g u.system.daemon.holder.current)
        × ((health_route g v r w).ready ≡ true → (health_route g v r u).ready ≡ true)
  unfolding health_route
  ready_for_good maxsize d w u s p q =
      let a = Leads-IsAfter q (Leads-IsAfter p (served-IsFresh s)).fresh in (a.newer, a.ready)
