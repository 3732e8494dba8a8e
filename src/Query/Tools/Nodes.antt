-- ===== src/Query/Tools/Nodes.antt =====
-- graph_query_api/tools.py: the handlers of get_node and get_neighbors.
use graphify_daemon_portfoli.Prelude.{
  Bool, true, false, not, ◌||◌, List, [], ◌∷◌, ◌++◌, String, if◌then◌else◌,
}
use graphify_daemon_portfoli.Prelude.Dict.{Dict}
use graphify_daemon_portfoli.Prelude.Exec.{Result, ok}
use graphify_daemon_portfoli.Prelude.Fallible.{◌>>=◌, collect}
use graphify_daemon_portfoli.Prelude.Text.{Text, Value, codes, show, join}
use graphify_daemon_portfoli.Graphify.{Attrs, Graphify}
use graphify_daemon_portfoli.Compiler.Snapshot.{GraphSnapshot}
use graphify_daemon_portfoli.Query.Budget.{line_break, same, cut_lines_to_budget}
use graphify_daemon_portfoli.Query.Tools.{
  integer, text, Arguments, required, optional, int_of, Reader,
}
use graphify_daemon_portfoli.Query.Tools.Attributes.{
  str, get, is_empty, or_else, contains, lower_value, lower_argument, sanitize, clean, node_data,
}

module _ (g : Graphify) (r : Reader g) where
  -- The test of `_tool_get_node` on one node.
  unfoldable pub is_match : Text → String × Attrs → Result Bool
  is_match label (nid, d) = do
    name ← lower_value g r (or_else (get "label" Value.null d) (Value.text ""))
    ok (contains label name || same label (r.lower (codes nid)))

  -- The nodes that match.
  unfoldable pub matching : Text → Dict String Attrs → Result (Dict String Attrs)
  matching label [] = ok []
  matching label (n ∷ ns) = do
    keep ← is_match label n
    rest ← matching label ns
    ok (if keep then n ∷ rest else rest)

  abbrev no_match : Text → Text
  no_match label = codes "No node matching '" ++ (label ++ codes "' found.")

  -- What `_tool_get_node` says of the first match.
  unfoldable pub node_text : g.Graph → String → Attrs → Result Text
  node_text graph nid d = do
    name ← sanitize g r (get "label" (Value.text nid) d)
    ok (
        join line_break (
          (codes "Node: " ++ name)
          ∷ (codes "  ID: " ++ r.sanitize_label (codes nid))
          ∷ (codes "  Source: "
              ++ (clean g r (get "source_file" (Value.text "") d)
                  ++ (codes " " ++ clean g r (get "source_location" (Value.text "") d))))
          ∷ (codes "  Type: " ++ clean g r (get "file_type" (Value.text "") d))
          ∷ (codes "  Community: "
              ++ clean g r
                  (or_else (get "community_name" Value.null d) (get "community" (Value.text "") d)))
          ∷ (codes "  Degree: " ++ show (r.degree graph nid))
          ∷ []))

  abbrev pub first_match : g.Graph → Text → Dict String Attrs → Result Text
  first_match graph label [] = ok (no_match label)
  first_match graph label ((nid, d) ∷ rest) = node_text graph nid d

  -- `_tool_get_node`
  unfoldable pub tool_get_node : Arguments → GraphSnapshot g → Result Text
  tool_get_node arguments snapshot = do
    label ← required "label" arguments >>= lower_argument g r
    matches ← matching label (r.nodes snapshot.graph)
    first_match snapshot.graph label matches

  -- `_edge_at`
  unfoldable pub edge_at : Attrs → Text
  edge_at d =
      let loc = str (or_else (get "source_location" Value.null d) (Value.text "")) in
      if is_empty loc
      then []
      else codes " at="
        ++ (clean g r (or_else (get "source_file" Value.null d) (Value.text ""))
            ++ (codes ":" ++ r.sanitize_label loc))

  -- Whether a relation passes the filter.
  unfoldable pub passes : Text → Value → Result Bool
  passes [] rel = ok true
  passes (c ∷ rel_filter) rel = do name ← lower_value g r rel; ok (contains (c ∷ rel_filter) name)

  -- `continue` if the test holds
  abbrev pub unless : Bool → Result (List Text) → Result (List Text)
  unless true lines = ok []
  unless false lines = lines

  -- The lines for one neighbour, none or one.
  unfoldable pub neighbor_lines : Text → g.Graph → Text → String → Attrs → Result (List Text)
  neighbor_lines arrow graph rel_filter nb d = do
    passed ← passes rel_filter (get "relation" (Value.text "") d)
    unless (not passed) (
        node_data g r graph nb >>= λ n. sanitize g r (get "label" (Value.text nb) n) >>= λ name.
        ok (
          (arrow
            ++ (name
                ++ (codes " ["
                    ++ (clean g r (get "relation" (Value.text "") d)
                        ++ (codes "] ["
                            ++ (clean g r (get "confidence" (Value.text "") d)
                                ++ (codes "]" ++ edge_at d)))))))
          ∷ []))

  abbrev concat : List (List Text) → List Text
  concat [] = []
  concat (l ∷ ls) = l ++ concat ls

  -- The lines about the node with the id `nid`.
  unfoldable pub neighbors_of : g.Graph → Text → String → Result (List Text)
  neighbors_of graph rel_filter nid = do
    n ← node_data g r graph nid
    name ← sanitize g r (get "label" (Value.text nid) n)
    out ←
        collect
          (λ nb. neighbor_lines (codes "  --> ") graph rel_filter nb (r.edge_data graph nid nb))
          (r.successors graph nid)
    back ←
        collect
          (λ nb. neighbor_lines (codes "  <-- ") graph rel_filter nb (r.edge_data graph nb nid))
          (r.predecessors graph nid)
    ok ((codes "Neighbors of " ++ (name ++ codes ":")) ∷ (concat out ++ concat back))

  unfoldable pub neighbors_hint : Text
  neighbors_hint = codes "Narrow with relation_filter or use get_node for a specific symbol"

  abbrev pub neighbors_text : g.Graph → Arguments → Text → Text → List String → Result Text
  neighbors_text graph arguments label rel_filter [] = ok (no_match label)
  neighbors_text graph arguments label rel_filter (nid ∷ rest) = do
    lines ← neighbors_of graph rel_filter nid
    budget ← int_of (optional "token_budget" (integer 2000) arguments)
    ok (cut_lines_to_budget lines budget neighbors_hint)

  -- `_tool_get_neighbors`
  unfoldable pub tool_get_neighbors : Arguments → GraphSnapshot g → Result Text
  tool_get_neighbors arguments snapshot = do
    label ← required "label" arguments >>= lower_argument g r
    rel_filter ← lower_argument g r (optional "relation_filter" (text "") arguments)
    neighbors_text snapshot.graph arguments label rel_filter (r.find_node snapshot.graph label)
