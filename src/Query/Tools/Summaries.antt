-- ===== src/Query/Tools/Summaries.antt =====
-- graph_query_api/tools.py: the handlers of get_community, god_nodes and graph_stats.
use graphify_daemon_portfoli.Prelude.{
  ℕ, ◌+◌, Bool, true, false, not, ◌&&◌, List, [], ◌∷◌, ◌++◌, String, String-discrete, ℕ_discrete,
  ◌==◌, if◌then◌else◌, ite, length,
}
use graphify_daemon_portfoli.Prelude.Dict.{lookup}
use graphify_daemon_portfoli.Prelude.Exec.{Result, ok}
use graphify_daemon_portfoli.Prelude.Fallible.{◌>>=◌, collect}
use graphify_daemon_portfoli.Prelude.Text.{Text, Value, codes, show, join}
use graphify_daemon_portfoli.Graphify.{Attrs, Graphify, GodNode}
use graphify_daemon_portfoli.Compiler.Snapshot.{GraphSnapshot}
use graphify_daemon_portfoli.Query.Budget.{line_break, same, cut_lines_to_budget}
use graphify_daemon_portfoli.Query.Tools.{integer, Arguments, required, optional, int_of, Reader}
use mathlib.Core.Option
use graphify_daemon_portfoli.Query.Tools.Attributes.{
  get, is_empty, truthy, sanitize, clean, node_data,
}

module _ (g : Graphify) (r : Reader g) where
  -- `_community_header`
  unfoldable pub community_header : ℕ → Value → Text
  community_header cid community_name =
      let base = codes "Community " ++ show cid in
      let label = clean g r community_name in
      if truthy community_name && (not (is_empty label) && not (same label base))
      then base ++ (codes " — " ++ label)
      else base

  -- The line for one member of a community.
  unfoldable pub member_line : g.Graph → String → Result Text
  member_line graph n = do
    d ← node_data g r graph n
    name ← sanitize g r (get "label" (Value.text n) d)
    ok (
        codes "  "
        ++ (name ++ (codes " [" ++ (clean g r (get "source_file" (Value.text "") d) ++ codes "]"))))

  unfoldable pub community_hint : Text
  community_hint = codes "Raise token_budget or use get_node for specific members"

  abbrev pub community_text : g.Graph → Arguments → ℕ → List String → Result Text
  community_text graph arguments cid [] =
      ok (codes "Community " ++ (show cid ++ codes " not found."))
  community_text graph arguments cid (n ∷ ns) = do
    d ← node_data g r graph n
    members ← collect (member_line graph) (n ∷ ns)
    budget ← int_of (optional "token_budget" (integer 2000) arguments)
    ok (
        cut_lines_to_budget
          ((community_header cid (get "community_name" Value.null d)
              ++ (codes " (" ++ (show (length (n ∷ ns)) ++ codes " nodes):")))
            ∷ members)
          budget community_hint)

  -- `_tool_get_community`
  unfoldable pub tool_get_community : Arguments → GraphSnapshot g → Result Text
  tool_get_community arguments snapshot = do
    cid ← required "community_id" arguments >>= int_of
    community_text snapshot.graph arguments cid
        (Option.get_or (lookup ℕ_discrete cid snapshot.community_map) [])

  abbrev god_lines : ℕ → List GodNode → List Text
  god_lines i [] = []
  god_lines i (n ∷ ns) =
      (codes "  "
        ++ (show i
            ++ (codes ". " ++ (n.label ++ (codes " - " ++ (show n.degree ++ codes " edges"))))))
      ∷ god_lines (i + 1) ns

  -- `_tool_god_nodes`
  unfoldable pub tool_god_nodes : Arguments → GraphSnapshot g → Result Text
  tool_god_nodes arguments snapshot = do
    top_n ← int_of (optional "top_n" (integer 10) arguments)
    ok (
        join line_break
          (codes "God nodes (most connected):" ∷ god_lines 1 (g.god_nodes snapshot.graph top_n)))

  -- `confs.count(name)`, of the confidences of the edges
  abbrev is_text : String → Value → Bool
  is_text name (Value.text s) = ite (String-discrete s name) true false
  is_text name v = false

  abbrev count_confidence : String → List Attrs → ℕ
  count_confidence name [] = 0
  count_confidence name (d ∷ ds) =
      let rest = count_confidence name ds in
      if is_text name (get "confidence" (Value.text "EXTRACTED") d) then rest + 1 else rest

  abbrev share : String → List Attrs → Text
  share name ds =
      let total = if length ds == 0 then 1 else length ds in
      codes name
      ++ (codes ": "
          ++ (show (r.percent (count_confidence name ds) total) ++ (codes "%" ++ line_break)))

  -- `_tool_graph_stats`
  unfoldable pub tool_graph_stats : Arguments → GraphSnapshot g → Result Text
  tool_graph_stats arguments snapshot =
      let ds = r.edges snapshot.graph in
      ok (
        codes "Nodes: "
        ++ (show (g.number_of_nodes snapshot.graph)
            ++ (line_break
                ++ (codes "Edges: "
                    ++ (show (g.number_of_edges snapshot.graph)
                        ++ (line_break
                            ++ (codes "Communities: "
                                ++ (show (length snapshot.community_map)
                                    ++ (line_break
                                        ++ (share "EXTRACTED" ds
                                            ++ (share "INFERRED" ds
                                                ++ share "AMBIGUOUS" ds)))))))))))
