-- ===== src/Query/Tools/Handlers.antt =====
-- graph_query_api/tools.py: the table of the seven handlers over a snapshot, and `execute_tool`.
pub mod Conforming
pub mod Causes
pub mod Labels
pub mod Explained
use graphify_daemon_portfoli.Prelude.{
  ℕ, ◌+◌, ◌≡◌, Bool, true, false, not, ◌&&◌, ◌||◌, Option, none, some, List, [], ◌∷◌, ◌++◌, String,
  String-discrete, ℕ_discrete, ◌==◌, if◌then◌else◌, ite, length,
}
use graphify_daemon_portfoli.Prelude.Dict.{Dict, lookup}
use graphify_daemon_portfoli.Prelude.Exec.{Result, ok, raise, key_error, attribute_error, or_raise}
use graphify_daemon_portfoli.Prelude.Fallible.{◌>>=◌, collect}
use graphify_daemon_portfoli.Prelude.Text.{Text, Value, codes, show, join, starts_with}
use graphify_daemon_portfoli.Graphify.{Attrs, Graphify, GodNode}
use graphify_daemon_portfoli.Compiler.Snapshot.{GraphSnapshot}
use graphify_daemon_portfoli.Query.Budget.{line_break, same, cut_lines_to_budget}
use graphify_daemon_portfoli.Query.Tools.{
  Json, integer, text, null, Arguments, required, optional, int_of, text_of, texts_of, Query,
  Reader,
}
use mathlib.Core.Option
use graphify_daemon_portfoli.Query.Tools.Attributes.{
  str, get, is_empty, truthy, or_else, contains, lower_value, lower_argument, sanitize, clean,
  node_data,
}
use graphify_daemon_portfoli.Query.Tools.Nodes.{tool_get_node, tool_get_neighbors}
use graphify_daemon_portfoli.Query.Tools.Summaries.{
  tool_get_community, tool_god_nodes, tool_graph_stats,
}

module _ (g : Graphify) (r : Reader g) where
  -- `_tool_query_graph`
  unfoldable pub tool_query_graph : Arguments → GraphSnapshot g → Result Text
  tool_query_graph arguments snapshot = do
    question ← required "question" arguments >>= text_of
    mode ← text_of (optional "mode" (text "bfs") arguments)
    depth ← int_of (optional "depth" (integer 3) arguments)
    token_budget ← int_of (optional "token_budget" (integer 2000) arguments)
    context_filters ← texts_of (optional "context_filter" null arguments)
    r.query_graph_text snapshot.graph (record {
      question = question;
      mode = mode;
      depth = depth;
      token_budget = token_budget;
      context_filters = context_filters;
    })

  -- `_tool_shortest_path`
  unfoldable pub tool_shortest_path : Arguments → GraphSnapshot g → Result Text
  tool_shortest_path arguments snapshot = r.shortest_path_text snapshot.graph arguments

  abbrev pub Handler : Type 0
  Handler = Arguments → GraphSnapshot g → Result Text

  -- `_TOOL_HANDLERS`
  abbrev tool_handlers : Dict String Handler
  tool_handlers =
      ("query_graph", tool_query_graph)
      ∷ ("get_node", tool_get_node g r)
      ∷ ("get_neighbors", tool_get_neighbors g r)
      ∷ ("get_community", tool_get_community g r)
      ∷ ("god_nodes", tool_god_nodes g r)
      ∷ ("graph_stats", tool_graph_stats g r)
      ∷ ("shortest_path", tool_shortest_path)
      ∷ []

  -- `execute_tool`
  unfoldable pub execute_tool : String → Arguments → GraphSnapshot g → Result Text
  execute_tool name arguments snapshot =
      or_raise key_error (lookup String-discrete name tool_handlers) >>= λ handler.
      handler arguments snapshot
