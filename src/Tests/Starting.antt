-- ===== src/Tests/Starting.antt =====
-- Starting, serving and restarting a small daemon, and the comparison of two graphs.
use graphify_daemon_portfoli.Prelude.{
  ◌≡◌, refl, ◌⊎◌, inl, ◌↔◌, str_eq, if◌then◌else◌, true, false, none, some, [], ◌∷◌,
  String-discrete,
}
use graphify_daemon_portfoli.Prelude.Dict.{lookup}
use graphify_daemon_portfoli.Prelude.Exec.{
  Result, Exec, ok, raise, value_error, file_not_found, system_exit,
}
use graphify_daemon_portfoli.Prelude.Text.{Text, codes}
use graphify_daemon_portfoli.Vault.Path.{FilePath, str, of_str, suffix, last_dot, relative_to}
use graphify_daemon_portfoli.Vault.FileSystem.{FileSystem}
use graphify_daemon_portfoli.Vault.Exclusions.{is_excluded, resolve_within_vault}
use graphify_daemon_portfoli.Vault.Batching.Watcher.{reject_new_events, drain_pending_batch}
use graphify_daemon_portfoli.Compiler.Extraction
use graphify_daemon_portfoli.Compiler.Extraction.{FilePath-discrete}
use graphify_daemon_portfoli.Compiler.Snapshot.{build_graph, publish, new_holder}
use graphify_daemon_portfoli.Lifecycle.Cadence.{content_of}
use graphify_daemon_portfoli.Lifecycle.ColdStart.{is_observed}
use graphify_daemon_portfoli.Query.Transport.{run, validate_host, validate_api_key}
use graphify_daemon_portfoli.Daemon.{DaemonState, Daemon, compile_pending, shutdown}
use graphify_daemon_portfoli.Daemon.Lifecycle.{drained, closing, last_compilation}
use graphify_daemon_portfoli.Daemon.Serving.{run_forever, run_forever-closes}
use graphify_daemon_portfoli.Daemon.Configuration.{
  Environment, Settings, settings_of, resolve_log_level, resolve_rotation_settings, port_of,
}
use graphify_daemon_portfoli.Daemon.Restart.{Loads, cache_data, init, cold_start}
use graphify_daemon_portfoli.Daemon.Restart.RoundTrip.{IsUnchangedVault, restart_round_trip}
use graphify_daemon_portfoli.Daemon.Main.{main, first_start, IsRaise, main-leaves_running}
use graphify_daemon_portfoli.Migration.{
  Content, Report, IsOnlyIn, Edge-discrete, compare_graph_jsons, compare_graph_jsons_lem,
}
use graphify_daemon_portfoli.Tests.Fixtures.{
  vault, note, vault_fs, library, one_node, schedule, moment, daemon, connection,
}

-- A daemon that has one note cached, with its mtime.
abbrev cached : Daemon library
cached = record (daemon true []) {
  cache = record { entries = ("a.md", one_node) ∷ []; mtimes = ("a.md", 7) ∷ [] };
}

-- Serving ends with a signal.
abbrev interrupted : Text → Exec (Daemon library) Unit
interrupted key d = (raise system_exit, d)

still_running :
    (run interrupted "127.0.0.1" (some (codes "key")) cached).1.state ≡ DaemonState.running
unfolding run validate_host validate_api_key String-discrete
still_running = refl

nothing_pending : (last_compilation library vault_fs schedule moment cached).0 ≡ ok tt
unfolding compile_pending reject_new_events drain_pending_batch
nothing_pending = refl

pending_compiles :
    (last_compilation library vault_fs schedule moment
      (run interrupted "127.0.0.1" (some (codes "key")) cached).1).0
    ≡ ok tt
unfolding compile_pending reject_new_events drain_pending_batch run validate_host validate_api_key
    String-discrete
pending_compiles = refl

run_forever-closes_example :
    let (outcome, end) =
      run_forever library vault_fs schedule moment interrupted "127.0.0.1"
        (some (codes "key"))
        cached in
    (outcome ≡ (run interrupted "127.0.0.1" (some (codes "key")) cached).0)
    × (end.state ≡ DaemonState.stopped)
    × (end.vault_index_conn.is_open ≡ false)
    × (content_of library end.disk.graph_cache_json
        ≡ some
            (last_compilation library vault_fs schedule moment
              (run interrupted "127.0.0.1" (some (codes "key")) cached).1).1.cache)
run_forever-closes_example =
    run_forever-closes library vault_fs schedule moment interrupted "127.0.0.1" (some (codes "key"))
      cached still_running pending_compiles

-- The vault of the restart: a directory and the note.
abbrev later : FileSystem
later = record vault_fs { rglob = λ p. vault ∷ note ∷ [] }

-- json gives back what it was given.
abbrev loads : Loads
loads c = ok (cache_data c)

abbrev settings : Settings
settings = record {
  vault_root = vault;
  nested_repo_names = [];
  quiet_seconds = 60;
  change_threshold = 25;
  pending_warn_threshold = 200;
}

shutdown_returns : (shutdown library vault_fs schedule moment cached).0 ≡ ok tt
unfolding shutdown compile_pending reject_new_events drain_pending_batch
shutdown_returns = refl

same_vault :
    IsUnchangedVault library later vault []
      (compile_pending library vault_fs schedule moment
        (drained library cached)
        (closing library cached)).1.cache
unfolding compile_pending reject_new_events drain_pending_batch suffix last_dot is_excluded
    relative_to resolve_within_vault Extraction.mtime lookup String-discrete str of_str is_observed
    FilePath-discrete Extraction.entries
same_vault = record {
  paths = (vault, none) ∷ (note, some ("a.md" ∷ [])) ∷ [];
  walked = refl;
  unchanged = (inl refl, ((refl, refl, refl, (note, refl), (7, 3, refl, refl)), tt));
  all_observed = (refl, tt);
}

built :
    build_graph library
      (compile_pending library vault_fs schedule moment
        (drained library cached)
        (closing library cached)).1.cache
    ≡ ok ([] ∷ [])
unfolding build_graph compile_pending reject_new_events drain_pending_batch
built = refl

restart_round_trip_example :
    let compiled =
      (compile_pending library vault_fs schedule moment
        (drained library cached)
        (closing library cached)).1 in
    let (outcome, started) = cold_start library later loads (
      init library settings 9
        (connection true)
        (shutdown library vault_fs schedule moment cached).1.disk) in
    (started.cache ≡ compiled.cache)
    × (started.log ≡ [])
    × (outcome ≡ ok (publish library ([] ∷ []) [] (new_holder library)).0)
    × (started.holder.current ≡ some (publish library ([] ∷ []) [] (new_holder library)).0)
    × ((publish library ([] ∷ []) [] (new_holder library)).0.version ≡ 1)
restart_round_trip_example =
    restart_round_trip library vault_fs later loads schedule moment cached settings 9
      (connection true) ([] ∷ []) refl shutdown_returns refl same_vault built

-- A vault and nothing else, and a port that is no number.
abbrev environment : Environment
environment = record {
  variable = λ name.
      if str_eq name "GRAPHIFY_DAEMON_VAULT_ROOT"
      then some "/v"
      else if str_eq name "GRAPHIFY_DAEMON_PORT"
      then some "http"
      else none;
  int = λ text. raise value_error;
  level_name = λ name. some 20;
  path = λ text. vault;
  characters = codes;
}

settings_are_valid : settings_of environment ≡ ok settings
unfolding settings_of resolve_log_level resolve_rotation_settings
settings_are_valid = refl

-- The observer finds no vault to watch.
abbrev no_vault : Result (Unit {0})
no_vault = raise file_not_found

main-leaves_running_example :
    (d : Daemon library) × ((main library vault_fs loads no_vault schedule moment
        (λ port. interrupted)
        environment
        9
        (connection true)
        cached.disk).1
      ≡ some d)
    × ((d.state ≡ DaemonState.running) ↔ (
        IsRaise (first_start library vault_fs loads settings 9 (connection true) cached.disk)
        ⊎ (IsRaise no_vault ⊎ IsRaise (port_of environment))))
main-leaves_running_example =
    main-leaves_running library vault_fs loads no_vault schedule moment (λ port. interrupted)
      environment 9 (connection true) cached.disk settings settings_are_valid

-- Two graphs that share one node.
abbrev old : Content
old = record { nodes = "a" ∷ "b" ∷ []; edges = ("a", "b") ∷ [] }

abbrev young : Content
young = record { nodes = "b" ∷ "c" ∷ []; edges = [] }

abbrev files : FilePath → Result Content
files [] = raise file_not_found
files (name ∷ rest) = if str_eq name "old" then ok old else ok young

compare_graph_jsons_lem_example :
    (r : Report) × (compare_graph_jsons files ("old" ∷ []) ("new" ∷ []) ≡ ok r)
    × IsOnlyIn String-discrete r.nodes_only_in_legacy old.nodes young.nodes
    × IsOnlyIn String-discrete r.nodes_only_in_new young.nodes old.nodes
    × IsOnlyIn Edge-discrete r.edges_only_in_legacy old.edges young.edges
    × IsOnlyIn Edge-discrete r.edges_only_in_new young.edges old.edges
compare_graph_jsons_lem_example =
    compare_graph_jsons_lem files ("old" ∷ []) ("new" ∷ []) old young refl refl
