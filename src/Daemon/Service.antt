-- ===== src/Daemon/Service.antt =====
-- daemon.py with graph_query_api/tools.py: the running service. Handlers that `build_mcp_server` makes read the
-- daemon's holder and share its query cache and its metrics, while the threads compile and shut down.
pub mod Answers
pub mod Readiness
use graphify_daemon_portfoli.Prelude.{ℕ, ◌≡◌, refl, Option, none, some, List, [], ◌∷◌, ◌++◌}
use graphify_daemon_portfoli.Graphify.{Communities, Graphify}
use graphify_daemon_portfoli.Compiler.Snapshot.{SnapshotHolder, publish, new_holder}
use graphify_daemon_portfoli.Lifecycle.Metrics.{Metrics, when_given, record_latency}
use graphify_daemon_portfoli.Lifecycle.Health.{Health, health_check}
use graphify_daemon_portfoli.Lifecycle.Report.{System, MetricsReport, collect_metrics}
use graphify_daemon_portfoli.Prelude.Exec.{Result}
use graphify_daemon_portfoli.Query.Cache.{CacheKey-discrete, init}
use graphify_daemon_portfoli.Query.Tools.{Reader}
use graphify_daemon_portfoli.Query.Tools.Schema.{Validator}
use graphify_daemon_portfoli.Query.Tools.Dispatch.{
  Request, Cache, Running, Begun, answered, running, begin, finish,
}
use graphify_daemon_portfoli.Query.Tools.Dispatch.World.{with_call}
use graphify_daemon_portfoli.Daemon.{Daemon}
use graphify_daemon_portfoli.Daemon.Threads

module _ (g : Graphify) (v : Validator) (r : Reader g) where
  -- The daemon among its threads, its query cache, and the calls whose tool is being executed.
  pub record Service : Type 0 where
    pub system : Threads.System g
    pub query_cache : Cache
    pub calls : List (Running g)

  -- `metrics.record_latency("query", elapsed)`, on the registry of the daemon
  abbrev pub timed : ℕ → Threads.System g → Threads.System g
  timed elapsed s = record s {
    daemon = record s.daemon {
      watcher = record s.daemon.watcher {
        metrics = when_given (record_latency "query" elapsed) s.daemon.watcher.metrics;
      };
    };
  }

  -- A call that is answered at once has been timed.
  abbrev pub timed_if : Begun g → ℕ → Threads.System g → Threads.System g
  timed_if (answered result) elapsed s = timed elapsed s
  timed_if (running call) elapsed s = s

  pub timed_if-holder :
      (b : Begun g) (elapsed : ℕ) (s : Threads.System g)
      → (timed_if b elapsed s).daemon.holder ≡ s.daemon.holder
  timed_if-holder (answered result) elapsed s = refl
  timed_if-holder (running call) elapsed s = refl

  abbrev pub call_begins : Request → ℕ → Service → Service
  call_begins params elapsed w =
      let (begun, cache) = begin g v r params w.system.daemon.holder.current w.query_cache in
      record {
        system = timed_if begun elapsed w.system;
        query_cache = cache;
        calls = with_call g v r begun w.calls;
      }

  abbrev pub call_finishes : Running g → List (Running g) → ℕ → Service → Service
  call_finishes call rest elapsed w = record {
    system = timed elapsed w.system;
    query_cache = (finish g v r call w.query_cache).1;
    calls = rest;
  }

  -- One step: of a thread of the daemon, or of a call.
  pub data Step : Service → Service → Type 0 where
    threads :
        {w : Service} {t : Threads.System g}
        → Threads.Step g w.system t
        → Step w (record w { system = t })
    beginning :
        {w : Service} (params : Request) (elapsed : ℕ) → Step w (call_begins params elapsed w)
    finishing :
        {w : Service} (before : List (Running g)) (call : Running g) (after : List (Running g))
        (elapsed : ℕ)
        → w.calls ≡ before ++ call ∷ after
        → Step w (call_finishes call (before ++ after) elapsed w)

  -- A holder that some publications have made from a new one.
  pub data IsServed : SnapshotHolder g → Type 0 where
    unpublished : IsServed (new_holder g)
    published :
        {h : SnapshotHolder g}
        → IsServed h
        → (graph : g.Graph) (communities : Communities) → IsServed (publish g graph communities h).1

  -- The service of a daemon, with an empty cache, when no call has come.
  abbrev pub start : ℕ → Daemon g → Service
  start maxsize d = record {
    system = Threads.begin g d;
    query_cache = init CacheKey-discrete maxsize;
    calls = [];
  }

  -- Steps of the service, one after another.
  pub data Leads (w : Service) : Service → Type 0 where
    still : Leads w w
    later : {t u : Service} → Leads w t → Step t u → Leads w u

  -- What `health_route` serves
  unfoldable pub health_route : Service → Health
  unfolding health_check
  health_route w = health_check g w.system.daemon.holder

  -- What `metrics_route` serves; the daemon always has a registry.
  unfoldable pub metrics_route : System → Metrics → ℕ → Service → Result MetricsReport
  unfolding collect_metrics
  metrics_route sys metrics now w =
      collect_metrics sys g metrics w.system.daemon.holder w.query_cache now
