-- ===== src/Daemon/Restart.antt =====
-- daemon.py: the constructor and `cold_start`, with extraction.py's `load`. The file of the cache is
-- recorded as the cache that `json.dumps` was given; what `json.loads` makes of its text is a parameter.
pub mod RoundTrip
use graphify_daemon_portfoli.Prelude.{
  ℕ, ◌≡◌, refl, ◌⊎◌, arith, true, false, not, ◌||◌, Option, none, some, List, [], ◌∷◌, String, All,
  map,
}
use graphify_daemon_portfoli.Prelude.Dict.{Dict}
use graphify_daemon_portfoli.Prelude.Exec.{
  Exec, Result, ok, raise, key_error, or_raise, lift, modify, pure, ◌>>=◌, ◌>>◌,
}
use graphify_daemon_portfoli.Vault.Path.{FilePath, suffix, relative_to}
use graphify_daemon_portfoli.Vault.FileSystem.{FileSystem}
use graphify_daemon_portfoli.Vault.Batching.Watcher
use graphify_daemon_portfoli.Vault.Exclusions.{
  contains, observed_suffixes, is_excluded, resolve_within_vault,
}
use graphify_daemon_portfoli.Graphify.{Extraction, Graphify}
use graphify_daemon_portfoli.Compiler.Extraction.{ExtractionCache, State, empty, mtime}
use graphify_daemon_portfoli.Compiler.Snapshot.{
  GraphSnapshot, SnapshotHolder, build_graph, publish, new_holder,
}
use graphify_daemon_portfoli.Compiler.SlowCadence.{new_tracker}
use graphify_daemon_portfoli.Lifecycle.Metrics
use graphify_daemon_portfoli.Lifecycle.VaultIndex.{Connection}
use graphify_daemon_portfoli.Lifecycle.Artifacts.{Artifact, Disk}
use graphify_daemon_portfoli.Lifecycle.ColdStart
use graphify_daemon_portfoli.Lifecycle.ColdStart.{
  visit, walk, prune, confine, refresh, is_observed, cached_paths,
}
use graphify_daemon_portfoli.Daemon.Configuration.{Settings}
use graphify_daemon_portfoli.Daemon.{DaemonState, Moment, Daemon, compile_pending, shutdown}
use graphify_daemon_portfoli.Daemon.Lifecycle.{drained, closing}
use graphify_daemon_portfoli.Daemon.Persistence.{shutdown_persists}
use graphify_daemon_portfoli.Compiler.Clustering.{Schedule}
use graphify_daemon_portfoli.Lifecycle.Cadence.{content_of}

-- The object that `json.loads` returns; a key can be missing.
pub record CacheData : Type 0 where
  pub entries : Option (Dict String Extraction)
  pub mtimes : Option (Dict String ℕ)

-- The object that `save` gives to `json.dumps`.
abbrev pub cache_data : ExtractionCache → CacheData
cache_data c = record { entries = some c.entries; mtimes = some c.mtimes }

-- Reading a cache's file and `json.loads` on its text; either can raise.
abbrev pub Loads : Type 0
Loads = ExtractionCache → Result CacheData

-- `ExtractionCache.load`
unfoldable pub load : Loads → ExtractionCache → Exec ExtractionCache (Unit {0})
load loads file = do
  data_read ← lift (loads file)
  entries ← lift (or_raise key_error data_read.entries)
  modify (λ c. record c { entries = entries })
  mtimes ← lift (or_raise key_error data_read.mtimes)
  modify (λ c. record c { mtimes = mtimes })

-- `load`, if the file exists
unfoldable pub load_cache :
    Loads → Option (Artifact ExtractionCache) → Exec ExtractionCache (Unit {0})
unfolding load
load_cache loads none = pure tt
load_cache loads (some file) = load loads file.content

module _ (g : Graphify) where
  -- `Daemon.__init__`, at `now`; the connection is what `connect` and `init_schema` return. The output
  -- directory, the query cache and the locks are not among the fields.
  unfoldable pub init : Settings → ℕ → Connection → Disk g → Daemon g
  unfolding new_holder new_tracker Watcher.init Metrics.init
  init settings now conn disk = record {
    vault_root = settings.vault_root;
    nested_repo_names = settings.nested_repo_names;
    state = DaemonState.running;
    holder = new_holder g;
    cache = empty;
    log = [];
    tracker = new_tracker settings.quiet_seconds settings.change_threshold now;
    vault_index_conn = conn;
    watcher =
        Watcher.init settings.pending_warn_threshold
          (some (Metrics.init Metrics.default_latency_window));
    disk = disk;
  }

  module _ (fs : FileSystem) (loads : Loads) where
    -- The reconciliation and the first snapshot, once the cache is loaded.
    abbrev reconcile : Result (Unit {0}) → Exec (Daemon g) (GraphSnapshot g)
    reconcile (raise e) d = (raise e, d)
    reconcile (ok u) d =
        let (published, started) =
          ColdStart.cold_start g fs d.vault_root d.nested_repo_names
            (record { cache = d.cache; metrics = d.watcher.metrics; log = d.log }) d.holder in
        (
          published,
          record d {
            cache = started.state.cache;
            log = started.state.log;
            watcher = record d.watcher { metrics = started.state.metrics };
            holder = started.holder;
          },
        )

    -- `Daemon.cold_start`
    unfoldable pub cold_start : Exec (Daemon g) (GraphSnapshot g)
    unfolding load_cache
    cold_start d =
        let (loaded, cache) = load_cache loads d.disk.graph_cache_json d.cache in
        reconcile loaded (record d { cache = cache })

    pub state-cold_start : (d : Daemon g) → (cold_start d).1.state ≡ d.state
    unfolding cold_start
    state-cold_start d = ground arith
