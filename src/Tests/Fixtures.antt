-- ===== src/Tests/Fixtures.antt =====
-- Concrete inputs: a vault of one note and one module, a file system that knows them, and a graph library
-- whose answers are fixed.
use graphify_daemon_portfoli.Prelude.{Bool, true, false, none, some, List, [], ◌∷◌}
use graphify_daemon_portfoli.Prelude.Exec.{ok, raise, value_error}
use graphify_daemon_portfoli.Vault.Path.{FilePath}
use graphify_daemon_portfoli.Vault.FileSystem.{FileSystem}
use graphify_daemon_portfoli.Vault.Batching.{ChangeKind, FileChange, Batch}
use graphify_daemon_portfoli.Vault.Batching.Watcher.{Watcher}
use graphify_daemon_portfoli.Graphify.{Attrs, Extraction, Graphify}
use graphify_daemon_portfoli.Compiler.Extraction.{ExtractionCache, State}
use graphify_daemon_portfoli.Compiler.Clustering.{Schedule}
use graphify_daemon_portfoli.Lifecycle.VaultIndex.{Connection}
use graphify_daemon_portfoli.Daemon.{DaemonState, Moment, Daemon}

abbrev pub vault : FilePath
vault = "/" ∷ "v" ∷ []

abbrev pub note : FilePath
note = "/" ∷ "v" ∷ "a.md" ∷ []

abbrev pub script : FilePath
script = "/" ∷ "v" ∷ "b.py" ∷ []

abbrev pub vault_fs : FileSystem
vault_fs = record {
  resolve = λ p. ok p;
  stat = λ p. ok (record { mtime = 7; size = 3 });
  is_dir = λ p. false;
  rglob = λ p. note ∷ script ∷ [];
}

abbrev pub one_node : Extraction
one_node = record { nodes = some ([] ∷ []); edges = some []; error = none; other_keys = [] }

-- Notes have one node; the extractor of modules always raises.
abbrev pub library : Graphify
library = record {
  Graph = List Attrs;
  TrigramIndex = Unit;
  str_exc = λ e. [];
  extract_markdown = λ fs p. ok one_node;
  extract_python = λ fs p. raise value_error;
  build_from_json = λ nodes edges. ok nodes;
  get_trigram_index = λ graph. (tt, graph);
  without_index = λ graph. graph;
  has_index = λ graph. false;
  cluster = λ graph. ok ((0, "a" ∷ []) ∷ []);
  remap_communities_to_previous = λ communities previous. communities;
  number_of_nodes = λ graph. 0;
  number_of_edges = λ graph. 0;
  god_nodes = λ graph top_n. [];
}

abbrev pub new_note : FileChange
new_note = record { path = note; kind = ChangeKind.created; previous_path = none }

abbrev pub gone_script : FileChange
gone_script = record { path = script; kind = ChangeKind.deleted; previous_path = none }

abbrev pub moved_note : FileChange
moved_note = record {
  path = "/" ∷ "v" ∷ "c.md" ∷ [];
  kind = ChangeKind.renamed;
  previous_path = some note;
}

abbrev pub batch : Batch
batch = record { changes = new_note ∷ gone_script ∷ moved_note ∷ [] }

abbrev pub watcher : List FileChange → Watcher
watcher pending = record {
  pending = pending;
  timer = none;
  idle_timer = none;
  rejecting_events = false;
  warned_this_episode = false;
  pending_warn_threshold = 2;
  metrics = none;
  warnings = 0;
  armed = [];
  idle_armed = [];
  next_timer = 0;
}

abbrev pub empty_cache : ExtractionCache
empty_cache = record { entries = []; mtimes = [] }

abbrev pub state : State
state = record { cache = empty_cache; metrics = none; log = [] }

abbrev pub connection : Bool → Connection
connection is_open = record { is_open = is_open; files = [] }

abbrev pub schedule : Schedule
schedule = record { in_time = true; exits = true }

abbrev pub moment : Moment
moment = record { recorded = 1; asked = 2; ended = 3 }

-- A running daemon that has nothing cached, with these changes pending.
abbrev pub daemon : Bool → List FileChange → Daemon library
daemon is_open pending = record {
  vault_root = vault;
  nested_repo_names = [];
  state = DaemonState.running;
  holder = record { current = none; next_version = 1 };
  cache = empty_cache;
  log = [];
  tracker = record {
    quiet_seconds = 5;
    change_threshold = 3;
    accumulated_changes = 0;
    last_batch_at = 0;
  };
  vault_index_conn = connection is_open;
  watcher = watcher pending;
  disk = record {
    is_posix = true;
    graph_json = none;
    knowledge_md = none;
    graph_cache_json = none;
  };
}
