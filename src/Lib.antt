-- ===== src/Lib.antt =====
-- The graphify daemon: a verification library.
--
-- The daemon watches a vault of Markdown and Python files, keeps a graph of what they contain, and
-- serves it to clients. Events become batches of file changes after a debounce; a batch is extracted into
-- a cache, mirrored into an index of files, and compiled into an immutable snapshot; from time to time the
-- graph is clustered in a subprocess and everything is written to disk. The paths below are from the
-- repository's root.
--
-- The files:
--   Vault/Path, Vault/FileSystem: the operations of pathlib on paths as lists of parts, and the file
--     system as a record of functions (resolve, stat, is_dir, rglob).
--   Vault/Exclusions: src/graphify_daemon/vault_compiler/exclusions.py (is_excluded,
--     resolve_within_vault, sanitize_log_text).
--   Vault/Batching: src/graphify_daemon/vault_compiler/batching.py. Handler is on_any_event; Watcher is
--     VaultWatcher, whose state is its record and whose methods are functions on it; Watcher/Steps is every
--     interleaving of these methods with the runtime's timers, as a step relation.
--   Compiler/Extraction: vault_compiler/extraction.py (extract_file, extract_batch, ExtractionCache).
--   Compiler/Snapshot: vault_compiler/snapshot.py (build_graph, SnapshotHolder).
--   Compiler/SlowCadence: vault_compiler/slow_cadence.py (SlowCadenceTracker).
--   Compiler/Clustering: vault_compiler/clustering.py (the subprocess and its cycle).
--   Lifecycle/Paths: src/graphify_daemon/paths.py (DaemonPaths).
--   Lifecycle/Metrics, VaultIndex, Artifacts, Cadence, ColdStart, Health: the files of
--     src/graphify_daemon/artifact_lifecycle/ with these names (Artifacts: graph_artifacts.py, security.py).
--   Query/Cache: src/graphify_daemon/graph_query_api/query_cache.py (QueryCache).
--   Query/Transport: graph_query_api/transport.py (validate_host, validate_api_key, _single_header,
--     _ApiKeyMiddleware, run); Query/Transport/App is build_app, the routes behind the gate.
--   Query/Budget: the cut of an answer in graph_query_api/tools.py (_cut_lines_to_budget).
--   Query/Tools: graph_query_api/tools.py: Schema is TOOL_DEFINITIONS and what conformance means, Attributes
--     and Handlers are the seven handlers and execute_tool, Dispatch is build_handlers, in two steps (begin
--     looks into the cache, finish executes the tool and stores), and Dispatch/World is every interleaving of
--     these steps with publications, as a step relation; Handlers/Causes names why a handler raises. The
--     query is that of adapters/graphify_query.py.
--   Lifecycle/Report: _rss_bytes, resolve_git_revision and collect_metrics of artifact_lifecycle/metrics.py.
--   Daemon: src/graphify_daemon/daemon.py: _compile_batch, the idle callback and shutdown, composed from
--     the functions of the components the way the code composes them. Daemon/Restart is the constructor and
--     cold_start, Daemon/Serving is run_forever and the signal handler, Daemon/Configuration and Daemon/Main
--     are main, with logging_config.py (resolve_log_level, resolve_rotation_settings, configure_logging).
--   Daemon/Threads: the same parts among their threads, with artifact_lifecycle/shutdown.py
--     (ShutdownCoordinator) and BatchConsumer: the observer, the debounce and idle timers, the threads that
--     wait with a batch for the coordinator's lock, and the thread that shuts down, as a step relation. A
--     compilation is four steps (_compile_batch's own calls) between which every other thread may run.
--     Places ties the shutdown's place to the lock, the state and the watcher; Accounting counts changes;
--     Progress bounds the work; Settling finds the state of rest; Sealed and Serial relate the steps to whole
--     compilations; Closing, Persisted and Order are about shutdowns and about the order of compilations;
--     Publications is how the threads change the served snapshot.
--   Daemon/Service: the daemon's threads beside the handlers of build_mcp_server, which share its holder, its
--     query cache and its metrics; health_route and metrics_route.
--   Migration: migration/comparator.py (compare_graph_jsons).
--   Graphify: the third-party graph library as a record of functions, with no assumption on them.
--   Prelude: dictionaries, results and their monad, texts, sorting, windows of lists. Tests: instances.
--
-- How code becomes definitions. State is passed explicitly: a method is a function from the state before
-- to the state after; what can raise returns a Result beside the state, which keeps what was done before
-- the exception. A method body that runs under a lock is one step, but for the compilations
-- under the coordinator's lock in Daemon/Threads. A dictionary is an association list in insertion order. Times, mtimes, sizes and latencies are natural numbers of ticks, and the clock is an
-- argument. The place of a percentile is len * p / 100 in natural numbers. A file system does not change
-- during one operation. The telemetry registry is one object that the daemon shares with its watcher; the
-- model keeps it in the watcher's record. A rate keeps its two numbers. A negative maxsize of the query
-- cache behaves as 0 and is not modelled apart. The suffix of a path is that of Python 3.12. Loops over
-- lists are structural recursion; the only fuel of a definition is that of the decimal digits of a number n,
-- which is n + 1 and more than their count. The run that Settling constructs has as fuel the work that is left.
--
-- The JSON arguments of a call are an association list; an array of texts is one value, and numbers that
-- are not natural, other arrays and objects keep only their source text, since no schema admits them. A text
-- that is measured or cut is the list of its code points.
--
-- Third-party code is a parameter: the graph library (Graphify, and Reader for what the tools read of it and
-- of networkx, with lower, repr and a rounded percentage), the file system (FileSystem), the child process of
-- the clustering (Schedule: whether it answers in time, and whether it then exits), jsonschema (Validator,
-- which accepts only arguments that conform), the environment of main, json's loads of the cache file,
-- whether watchdog's observer starts, the outputs of git and ps, and what uvicorn serves. sqlite is
-- a table that a failed transaction leaves unchanged, and that raises when its connection is closed.
-- A function of the graph library whose type has no Result is taken to return.
--
-- Not modelled: the MCP server object and its session manager, Starlette's routing and uvicorn, which are
-- parameters; the functions of the adapter that only pass their arguments on, the logging library, the
-- JSON format of the files (a file is recorded as the data it was written from), writes to disk that
-- fail, sqlite beyond a table and its transactions, the titles and descriptions of the tools, the benchmarks
-- and the test suite. In Daemon/Threads a file event may come at any time, also when the
-- observer has been stopped, and the files do not change while one batch is compiled.
pub mod Prelude
pub mod Vault
pub mod Compiler
pub mod Lifecycle
pub mod Query
pub mod Graphify
pub mod Daemon
pub mod Migration
pub mod Tests
