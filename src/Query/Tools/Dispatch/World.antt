-- ===== src/Query/Tools/Dispatch/World.antt =====
-- graph_query_api/tools.py, query_cache.py and vault_compiler/snapshot.py together: publications and the
-- two steps of concurrent calls in every order.
use graphify_daemon_portfoli.Prelude.{ℕ, ◌≡◌, List, [], ◌∷◌, ◌++◌, ℕ_discrete}
use graphify_daemon_portfoli.Prelude.Dict.{Dict, put}
use graphify_daemon_portfoli.Graphify.{Communities, Graphify}
use graphify_daemon_portfoli.Compiler.Snapshot.{GraphSnapshot, SnapshotHolder, publish, new_holder}
use graphify_daemon_portfoli.Query.Cache.{CacheKey-discrete, init}
use graphify_daemon_portfoli.Query.Tools.{Reader}
use graphify_daemon_portfoli.Query.Tools.Schema.{Validator}
use graphify_daemon_portfoli.Query.Tools.Dispatch.{
  Request, Cache, Running, Begun, answered, running, begin, finish,
}

module _ (g : Graphify) (v : Validator) (r : Reader g) where
  -- The holder, the cache, the calls that run, and every snapshot ever published, by its version.
  pub record World : Type 0 where
    pub holder : SnapshotHolder g
    pub cache : Cache
    pub calls : List (Running g)
    pub published : Dict ℕ (GraphSnapshot g)

  abbrev pub start : ℕ → World
  start maxsize = record {
    holder = new_holder g;
    cache = init CacheKey-discrete maxsize;
    calls = [];
    published = [];
  }

  abbrev pub with_call : Begun g → List (Running g) → List (Running g)
  with_call (answered result) calls = calls
  with_call (running call) calls = call ∷ calls

  abbrev pub publishes : g.Graph → Communities → World → World
  publishes graph communities w =
      let (snapshot, holder) = publish g graph communities w.holder in
      record w { holder = holder; published = put ℕ_discrete snapshot.version snapshot w.published }

  abbrev pub begins : Request → World → World
  begins params w =
      let (begun, cache) = begin g v r params w.holder.current w.cache in
      record w { cache = cache; calls = with_call begun w.calls }

  abbrev pub finishes : Running g → List (Running g) → World → World
  finishes call rest w = record w { cache = (finish g v r call w.cache).1; calls = rest }

  -- One step: the compiler publishes, a call arrives and looks into the cache, or the execution of a
  -- running call ends.
  pub data Step : World → World → Type 0 where
    publishing :
        {w : World} (graph : g.Graph) (communities : Communities)
        → Step w (publishes graph communities w)
    beginning : {w : World} (params : Request) → Step w (begins params w)
    finishing :
        {w : World} (before : List (Running g)) (call : Running g) (after : List (Running g))
        → w.calls ≡ before ++ call ∷ after
        → Step w (finishes call (before ++ after) w)

  pub data Reachable (maxsize : ℕ) : World → Type 0 where
    started : Reachable maxsize (start maxsize)
    stepped : {w u : World} → Reachable maxsize w → Step w u → Reachable maxsize u
