-- ===== src/Daemon/Service/Answers.antt =====
-- daemon.py with graph_query_api/tools.py and query_cache.py: what a client of the running service is told.
use graphify_daemon_portfoli.Prelude.{ℕ, ◌≡◌, refl, sym, ap, ◌∙◌, inl, inr, List, [], ◌++◌, subst}
use graphify_daemon_portfoli.Graphify.{Communities, Graphify}
use graphify_daemon_portfoli.Compiler.Snapshot.{SnapshotHolder, publish}
use graphify_daemon_portfoli.Query.Cache.{CacheKey-discrete, init}
use graphify_daemon_portfoli.Query.Tools.{Reader}
use graphify_daemon_portfoli.Query.Tools.Schema.{Validator}
use graphify_daemon_portfoli.Query.Tools.Dispatch.{Request, Cache, Running, begin, finish, dispatch}
use graphify_daemon_portfoli.Query.Tools.Dispatch.World.{
  World, Reachable, publishing, publishes, started, stepped, with_call,
}
use graphify_daemon_portfoli.Query.Tools.Dispatch.World
use graphify_daemon_portfoli.Query.Tools.Dispatch.Keys.{IgnoresEmptyFilters}
use graphify_daemon_portfoli.Query.Tools.Dispatch.Transparency.{cached-Transparent}
use graphify_daemon_portfoli.Daemon.{Daemon}
use graphify_daemon_portfoli.Daemon.Threads.Publications.{Step-Republished}
use graphify_daemon_portfoli.Daemon.Service.{
  Service, Step, Leads, still, later, IsServed, unpublished, published, start, threads, beginning,
  finishing, timed_if-holder,
}

module _ (g : Graphify) (v : Validator) (r : Reader g) where
  -- A world of publications and calls that looks like the service to its clients.
  record Shadow (maxsize : ℕ) (h : SnapshotHolder g) (c : Cache) (cs : List (Running g))
      : Type 0 where
    world : World.World g v r
    reachable : Reachable g v r maxsize world
    holder : world.holder ≡ h
    cache : world.cache ≡ c
    calls : world.calls ≡ cs

  published-Shadow :
      (maxsize : ℕ) (h : SnapshotHolder g) (c : Cache) (cs : List (Running g)) (graph : g.Graph)
      (communities : Communities)
      → Shadow maxsize h c cs
      → Shadow maxsize (publish g graph communities h).1 c cs
  published-Shadow maxsize h c cs graph communities s = record {
    world = publishes g v r graph communities s.world;
    reachable = stepped s.reachable (publishing graph communities);
    holder = ap (λ x. (publish g graph communities x).1) s.holder;
    cache = s.cache;
    calls = s.calls;
  }

  served-Shadow :
      (maxsize : ℕ) {h : SnapshotHolder g}
      → IsServed g v r h
      → Shadow maxsize h (init CacheKey-discrete maxsize) []
  served-Shadow maxsize unpublished = record {
    world = World.start g v r maxsize;
    reachable = started;
    holder = refl;
    cache = refl;
    calls = refl;
  }
  served-Shadow maxsize (published {h} s graph communities) =
      published-Shadow maxsize h (init CacheKey-discrete maxsize) [] graph communities
        (served-Shadow maxsize s)

  abbrev Shadowed : ℕ → Service g v r → Type 0
  Shadowed maxsize w = Shadow maxsize w.system.daemon.holder w.query_cache w.calls

  Step-Shadowed :
      {maxsize : ℕ} {w u : Service g v r} → Step g v r w u → Shadowed maxsize w → Shadowed maxsize u
  Step-Shadowed {maxsize} {w} (threads {t = t} st) s = elim (Step-Republished g st) [
    | inl e ↦ record {
      world = s.world;
      reachable = s.reachable;
      holder = s.holder ∙ sym e;
      cache = s.cache;
      calls = s.calls;
    }
    | inr (graph, communities, e) ↦
        subst (λ h. Shadow maxsize h w.query_cache w.calls) (sym e)
          (published-Shadow maxsize w.system.daemon.holder w.query_cache w.calls graph communities
            s)
  ]
  Step-Shadowed {maxsize} {w} (beginning params elapsed) s = record {
    world = World.begins g v r params s.world;
    reachable = stepped s.reachable (World.beginning params);
    holder =
        s.holder
        ∙ sym (
            timed_if-holder g v r
              (begin g v r params w.system.daemon.holder.current w.query_cache).0 elapsed w.system);
    cache = rw (s.holder, s.cache) refl;
    calls = rw (s.holder, s.cache, s.calls) refl;
  }
  Step-Shadowed {maxsize} {w} (finishing before call after elapsed e) s = record {
    world = World.finishes g v r call (before ++ after) s.world;
    reachable = stepped s.reachable (World.finishing before call after (s.calls ∙ e));
    holder = s.holder;
    cache = ap (λ c. (finish g v r call c).1) s.cache;
    calls = refl;
  }

  Leads-Shadowed :
      (maxsize : ℕ) (d : Daemon g) {w : Service g v r}
      → IsServed g v r d.holder
      → Leads g v r (start g v r maxsize d) w
      → Shadowed maxsize w
  Leads-Shadowed maxsize d s still = served-Shadow maxsize s
  Leads-Shadowed maxsize d s (later q st) = Step-Shadowed st (Leads-Shadowed maxsize d s q)

  -- While the threads compile, cluster and shut down, and whatever other calls do to the cache between its
  -- steps: a call that is dispatched gets exactly the answer that it would get from the served snapshot
  -- with an empty cache, if the daemon started with a holder that publications made from a new one, and the
  -- graph library answers an empty list of filters as it answers no list.
  pub service-Transparent :
      (ignores : IgnoresEmptyFilters g r) (maxsize : ℕ) (d : Daemon g) (w : Service g v r)
      (params : Request)
      → IsServed g v r d.holder
      → Leads g v r (start g v r maxsize d) w
      → (dispatch g v r params w.system.daemon.holder.current w.query_cache).0
        ≡ (dispatch g v r params w.system.daemon.holder.current (init CacheKey-discrete maxsize)).0
  service-Transparent ignores maxsize d w params s q =
      let shadow = Leads-Shadowed maxsize d s q in
      let same = cached-Transparent g v r ignores maxsize params shadow.reachable in
      subst
        (λ h.
          (dispatch g v r params h.current w.query_cache).0
          ≡ (dispatch g v r params h.current (init CacheKey-discrete maxsize)).0)
        shadow.holder
        (subst
          (λ c.
            (dispatch g v r params shadow.world.holder.current c).0
            ≡ (dispatch g v r params shadow.world.holder.current
                (init CacheKey-discrete maxsize)).0)
          shadow.cache same)
