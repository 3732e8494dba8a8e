-- ===== src/Tests/Tools.antt =====
-- The tools at concrete inputs: a graph of one node with an edge to itself, calls that run one after another
-- and at the same time, and answers that are cut.
use graphify_daemon_portfoli.Prelude.{
  ℕ, ◌-◌, ◌≡◌, refl, arith, true, none, some, List, [], ◌∷◌, ◌++◌, take, length, String-discrete,
  dec_le, ℕ_discrete,
}
use graphify_daemon_portfoli.Prelude.Dict.{lookup}
use graphify_daemon_portfoli.Prelude.Exec.{ok}
use graphify_daemon_portfoli.Prelude.Text.{Text, Value, codes, join, show}
use graphify_daemon_portfoli.Prelude.Window.{last}
use graphify_daemon_portfoli.Compiler.Snapshot.{GraphSnapshot}
use graphify_daemon_portfoli.Lifecycle.Metrics.{Metrics, samples}
use graphify_daemon_portfoli.Query.Cache.{CacheKey}
use graphify_daemon_portfoli.Query.Budget.{line_break, notice, trailer, cut_lines_to_budget}
use graphify_daemon_portfoli.Query.Budget.Lines.{IsLineCut}
use graphify_daemon_portfoli.Query.Budget.Bounds.{IsAnswer, cut_lines-IsBounded}
use graphify_daemon_portfoli.Query.Budget.Answers.{cut_between_lines, long_first_line}
use graphify_daemon_portfoli.Query.Tools.{Json, Reader}
use graphify_daemon_portfoli.Query.Tools.Schema
use graphify_daemon_portfoli.Query.Tools.Schema.{tool_by_name}
use graphify_daemon_portfoli.Query.Tools.Summaries.{tool_get_community}
use graphify_daemon_portfoli.Query.Tools.Handlers.{execute_tool}
use graphify_daemon_portfoli.Query.Tools.Handlers.Causes.{IsWellFormed, Cause}
use graphify_daemon_portfoli.Query.Tools.Dispatch.{
  Request, Cache, Running, error_result, tool_failed, begin, finish, dispatch,
}
use graphify_daemon_portfoli.Query.Tools.Dispatch.Errors.{valid_call_error}
use graphify_daemon_portfoli.Query.Tools.Dispatch.Effects.{
  dispatch-error_keeps, Served, serve_all, one_sample_per_call,
}
use graphify_daemon_portfoli.Tests.Fixtures.{library}
use graphify_daemon_portfoli.Tests.Validation.{validator}
use mathlib.Core.Option

abbrev pub reader : Reader library
reader = record {
  nodes = λ graph. ("a", ("label", Value.text "A") ∷ []) ∷ [];
  successors = λ graph n. "a" ∷ [];
  predecessors = λ graph n. "a" ∷ [];
  edge_data = λ graph a b. ("relation", Value.text "calls") ∷ [];
  edges = λ graph. [];
  degree = λ graph n. 2;
  find_node = λ graph label. "a" ∷ [];
  query_graph_text = λ graph q. ok (codes q.question);
  shortest_path_text = λ graph arguments. ok (codes "A --> A");
  sanitize_label = λ t. t;
  sanitize_value = λ v. ok [];
  lower = λ t. t;
  repr = codes;
  percent = λ a b. 0;
}

abbrev pub question : Request
question = record { name = "query_graph"; arguments = some (("question", Json.text "why") ∷ []) }

abbrev pub snapshot : GraphSnapshot library
snapshot = record { graph = []; trigram_index = tt; community_map = []; version = 1 }

abbrev key : CacheKey
key = record {
  version = 1;
  question = "why";
  mode = "bfs";
  depth = 3;
  token_budget = 2000;
  context_filters = none;
}

abbrev pub call : Running library
call = record {
  name = "query_graph";
  arguments = ("question", Json.text "why") ∷ [];
  snapshot = snapshot;
  key = some key;
}

-- A community whose member has left the graph.
abbrev stale : GraphSnapshot library
stale = record snapshot { community_map = (4, "gone" ∷ []) ∷ [] }

abbrev community : Request
community = record {
  name = "get_community";
  arguments = some (("community_id", Json.integer 4) ∷ []);
}

well_formed : IsWellFormed library reader stale.graph
unfolding lookup String-discrete
well_formed = record {
  labels = (("A", refl), tt);
  found = λ label. (tt, tt);
  successors = λ n h. ((tt, ("calls", refl)), tt);
  predecessors = λ n h. ((tt, ("calls", refl)), tt);
}

is_known : tool_by_name "get_community" ≡ some Schema.get_community
unfolding tool_by_name
is_known = refl

is_valid : validator.validate Schema.get_community (("community_id", Json.integer 4) ∷ []) ≡ none
unfolding lookup String-discrete dec_le
is_valid = refl

abbrev empty : Cache
empty = record { maxsize = 2; entries = []; hits = 0; misses = 0 }

is_failed : (dispatch library validator reader community (some stale) empty).0.is_error ≡ true
unfolding dispatch begin tool_by_name finish execute_tool tool_get_community lookup String-discrete
    tool_failed dec_le ℕ_discrete
is_failed = refl

valid_call_error_example :
    Cause library reader stale "get_community" (("community_id", Json.integer 4) ∷ [])
valid_call_error_example =
    valid_call_error library validator reader community Schema.get_community stale empty is_known
      is_valid well_formed is_failed

-- A call of a tool that is not there, with one entry in the cache.
abbrev unknown : Request
unknown = record { name = "drop_graph"; arguments = none }

abbrev full : Cache
full = record { maxsize = 1; entries = (key, codes "because") ∷ []; hits = 0; misses = 1 }

is_refused : (dispatch library validator reader unknown (some snapshot) full).0.is_error ≡ true
unfolding dispatch begin tool_by_name error_result
is_refused = refl

dispatch-error_keeps_example :
    (dispatch library validator reader unknown (some snapshot) full).1.entries
    ≡ (key, codes "because") ∷ []
dispatch-error_keeps_example =
    dispatch-error_keeps library validator reader unknown (some snapshot) full is_refused

abbrev served : List (Served library validator reader)
served =
    record { params = question; current = some snapshot; elapsed = 7 }
    ∷ record { params = unknown; current = none; elapsed = 1 }
    ∷ []

abbrev metrics : Metrics
metrics = record {
  counters = [];
  gauges = [];
  event_times = [];
  latencies = ("query", 4 ∷ 5 ∷ []) ∷ [];
  latency_window = 3;
}

one_sample_per_call_example :
    (length (serve_all library validator reader served (empty, some metrics)).0 ≡ 2)
    × (Option.map
          (samples "query")
          (serve_all library validator reader served (empty, some metrics)).1.1
        ≡ some (5 ∷ 7 ∷ 1 ∷ []))
unfolding samples lookup String-discrete last
one_sample_per_call_example =
    one_sample_per_call library validator reader served empty metrics (omega arith)

abbrev lines : List Text
lines = codes "ab" ∷ codes "cd" ∷ codes "ef" ∷ []

cut_between_lines_example :
    (k : ℕ) × IsLineCut lines 6 k
    × (cut_lines_to_budget lines 2 (codes "Less")
        ≡ notice k 3 2 (codes "Less")
          ++ (join line_break (take k lines) ++ trailer (show (3 - k)) 2 (codes "Less")))
unfolding join
cut_between_lines_example =
    cut_between_lines (codes "ab") (codes "cd" ∷ codes "ef" ∷ []) 2 (codes "Less")
      ((refl, (refl, tt)), ((refl, (refl, tt)), ((refl, (refl, tt)), tt))) (omega arith)
      (omega arith) (omega arith)

long_first_line_example :
    cut_lines_to_budget (codes "abcd" ∷ codes "e" ∷ []) 1 (codes "Less")
    ≡ notice 1 2 1 (codes "Less") ++ (codes "abc" ++ trailer (show 1) 1 (codes "Less"))
long_first_line_example =
    long_first_line (codes "abcd") (codes "e") [] 1 (codes "Less")
      (refl, (refl, (refl, (refl, tt)))) (omega arith)

cut_lines-IsBounded_example :
    IsAnswer (join line_break lines) 2 (codes "Less") (cut_lines_to_budget lines 2 (codes "Less"))
cut_lines-IsBounded_example = cut_lines-IsBounded lines 2 (codes "Less")
