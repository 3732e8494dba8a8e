-- ===== src/Query/Tools/Handlers/Explained.antt =====
-- graph_query_api/tools.py: on a well-formed graph, with arguments that conform to the schema of the tool,
-- a handler returns or has a cause.
use graphify_daemon_portfoli.Prelude.{
  ℕ, refl, inl, inr, Option-cases, ◌≡◌, Bool, true, false, not, none, some, List, [], ◌∷◌, String,
  String-discrete, All, All-map,
}
use graphify_daemon_portfoli.Prelude.Dict.{Dict, lookup}
use graphify_daemon_portfoli.Prelude.Exec.{ok, Result}
use graphify_daemon_portfoli.Prelude.Fallible.{
  ◌>>=◌, collect, IsOk, ReturnsOr, IsOk-ReturnsOr, raise-ReturnsOr, bind-ReturnsOr,
  collect-ReturnsOr,
}
use graphify_daemon_portfoli.Prelude.Text.{Text, Value}
use graphify_daemon_portfoli.Graphify.{Attrs, Graphify}
use graphify_daemon_portfoli.Compiler.Snapshot.{GraphSnapshot}
use graphify_daemon_portfoli.Query.Tools.{
  Json, Arguments, required, optional, text_of, texts_of, int_of, Reader,
}
use graphify_daemon_portfoli.Query.Tools.Schema
use graphify_daemon_portfoli.Query.Tools.Schema.{
  IsAmong, any_text, one_of, integer_in, text_list, IsPresent, IsThere, Conforms,
}
use graphify_daemon_portfoli.Query.Tools.Attributes.{get, sanitize, lower_value, node_data}
use graphify_daemon_portfoli.Query.Tools.Nodes.{
  first_match, neighbors_text, is_match, matching, node_text, passes, unless, neighbor_lines,
  neighbors_of, tool_get_node, tool_get_neighbors,
}
use graphify_daemon_portfoli.Query.Tools.Summaries.{
  community_text, member_line, tool_get_community, tool_god_nodes,
}
use graphify_daemon_portfoli.Query.Tools.Handlers.{tool_query_graph, tool_shortest_path}
use graphify_daemon_portfoli.Query.Tools.Handlers.Conforming.{
  text_there, text_or, choice_or, integer_there, integer_or, texts_or,
}
use graphify_daemon_portfoli.Query.Tools.Handlers.Labels.{
  label-IsText, node_data-IsLabelled, matching-IsLabelled,
}
use graphify_daemon_portfoli.Query.Tools.Handlers.Causes.{
  IsLabelled, IsNode, IsText, IsNeighbor, IsWellFormed, members_of, Cause, query_raised,
  path_raised, member_gone,
}

All-IsAmong :
    {P : String → Type 0} (ns : List String) → ((n : String) → IsAmong n ns → P n) → All P ns
All-IsAmong [] f = tt
All-IsAmong (n ∷ ns) f = (f n (inl refl), All-IsAmong ns (λ m h. f m (inr h)))

module _ (g : Graphify) (r : Reader g) (s : GraphSnapshot g) (name : String) (arguments : Arguments)
    (w : IsWellFormed g r s.graph) where
  abbrev Why : Type 0
  Why = Cause g r s name arguments

  abbrev pub Explained : {A : Type 0} → Result A → Type 0
  Explained m = ReturnsOr Why m

  sanitize-Explained : {x : Value} → IsText g r x → Explained (sanitize g r x)
  sanitize-Explained (t, e) = rw e tt

  -- The label of a node that is in the graph.
  label-Explained :
      (n : String) (d : Attrs)
      → node_data g r s.graph n ≡ ok d
      → Explained (sanitize g r (get "label" (Value.text n) d))
  label-Explained n d there =
      sanitize-Explained (node_data-IsLabelled g r s.graph n d w.labels there)

  lower-Explained : {x : Value} → IsText g r x → Explained (lower_value g r x)
  lower-Explained (t, e) = rw e tt

  pub query_graph-Explained :
      name ≡ "query_graph"
      → Conforms Schema.query_graph arguments
      → Explained (tool_query_graph g r arguments s)
  unfolding tool_query_graph
  query_graph-Explained same c =
      let (question, e) =
        text_there (lookup String-discrete "question" arguments) c.has_required.0 c.admitted.0 in
      rw e (
        bind-ReturnsOr Why (text_of (optional "mode" (Json.text "bfs") arguments)) _
          (IsOk-ReturnsOr Why _ (choice_or ("bfs" ∷ "dfs" ∷ []) "bfs" _ c.admitted.1.0))
          (λ mode a.
            bind-ReturnsOr Why (int_of (optional "depth" (Json.integer 3) arguments)) _
              (IsOk-ReturnsOr Why _ (integer_or 1 (some 6) 3 _ c.admitted.1.1.0))
              (λ depth b.
                bind-ReturnsOr Why (int_of (optional "token_budget" (Json.integer 2000) arguments))
                  _ (IsOk-ReturnsOr Why _ (integer_or 1 (some 20000) 2000 _ c.admitted.1.1.1.0))
                  (λ budget d.
                    bind-ReturnsOr Why (texts_of (optional "context_filter" Json.null arguments)) _
                      (IsOk-ReturnsOr Why _ (texts_or 50 _ c.admitted.1.1.1.1.0))
                      (λ filters f. raise-ReturnsOr Why _ (query_raised same _ e))))))

  is_match-Explained :
      (label : Text) (n : String × Attrs) → IsLabelled g r n → Explained (is_match g r label n)
  unfolding is_match
  is_match-Explained label (nid, d) h =
      bind-ReturnsOr Why _ _ (lower-Explained (label-IsText g r (nid, d) h)) (λ text e. tt)

  matching-Explained :
      (label : Text) (ns : Dict String Attrs)
      → All (IsLabelled g r) ns
      → Explained (matching g r label ns)
  unfolding matching
  matching-Explained label [] h = tt
  matching-Explained label (n ∷ ns) h =
      bind-ReturnsOr Why (is_match g r label n) _ (is_match-Explained label n h.0) (λ keep a.
        bind-ReturnsOr Why (matching g r label ns) _ (matching-Explained label ns h.1)
          (λ rest b. tt))

  first_match-Explained :
      (label : Text) (ns : Dict String Attrs)
      → All (IsLabelled g r) ns
      → Explained (first_match g r s.graph label ns)
  unfolding node_text
  first_match-Explained label [] h = tt
  first_match-Explained label ((nid, d) ∷ ns) h =
      bind-ReturnsOr Why (sanitize g r (get "label" (Value.text nid) d)) _ (sanitize-Explained h.0)
        (λ text e. tt)

  passes-Explained :
      (rel_filter : Text) {rel : Value} → IsText g r rel → Explained (passes g r rel_filter rel)
  unfolding passes
  passes-Explained [] h = tt
  passes-Explained (c ∷ rel_filter) h = bind-ReturnsOr Why _ _ (lower-Explained h) (λ text e. tt)

  unless-Explained :
      (b : Bool) (lines : Result (List Text)) → Explained lines → Explained (unless g r b lines)
  unless-Explained true lines h = tt
  unless-Explained false lines h = h

  neighbor_lines-Explained :
      (arrow rel_filter : Text) (nb : String) (d : Attrs)
      → IsNeighbor g r s.graph nb d
      → Explained (neighbor_lines g r arrow s.graph rel_filter nb d)
  unfolding neighbor_lines
  neighbor_lines-Explained arrow rel_filter nb d (n, h) =
      bind-ReturnsOr Why (passes g r rel_filter _) _ (passes-Explained rel_filter h) (λ passed a.
        unless-Explained (not passed) _ (
          bind-ReturnsOr Why (node_data g r s.graph nb) _ (IsOk-ReturnsOr Why _ n) (λ x b.
            bind-ReturnsOr Why (sanitize g r (get "label" (Value.text nb) x)) _
              (label-Explained nb x b) (λ text e. tt))))

  member_line-Explained :
      (n : String) → Explained (node_data g r s.graph n) → Explained (member_line g r s.graph n)
  unfolding member_line
  member_line-Explained n h = bind-ReturnsOr Why (node_data g r s.graph n) _ h (λ d a.
      bind-ReturnsOr Why (sanitize g r (get "label" (Value.text n) d)) _ (label-Explained n d a)
        (λ text e. tt))

  community_text-Explained :
      (cid : ℕ) (ns : List String)
      → IsOk (int_of (optional "token_budget" (Json.integer 2000) arguments))
      → All (λ n. Explained (node_data g r s.graph n)) ns
      → Explained (community_text g r s.graph arguments cid ns)
  community_text-Explained cid [] b h = tt
  community_text-Explained cid (n ∷ ns) b h =
      bind-ReturnsOr Why (node_data g r s.graph n) _ h.0 (λ d p.
        bind-ReturnsOr Why (collect (member_line g r s.graph) (n ∷ ns)) _
          (collect-ReturnsOr Why (member_line g r s.graph) (n ∷ ns)
            (All-map member_line-Explained (n ∷ ns) h))
          (λ members q. bind-ReturnsOr Why _ _ (IsOk-ReturnsOr Why _ b) (λ budget e. tt)))

  pub get_community-Explained :
      name ≡ "get_community"
      → Conforms Schema.get_community arguments
      → Explained (tool_get_community g r arguments s)
  unfolding tool_get_community
  get_community-Explained same c =
      bind-ReturnsOr Why (required "community_id" arguments >>= int_of) _
        (IsOk-ReturnsOr Why _ (
          integer_there 0 none (lookup String-discrete "community_id" arguments) c.has_required.0
            c.admitted.0))
        (λ cid asked.
          community_text-Explained cid _ (integer_or 1 (some 20000) 2000 _ c.admitted.1.0) (
            All-IsAmong (members_of g r s cid) (λ n among.
              elim (Option-cases (lookup String-discrete n (r.nodes s.graph))) [
                | inl gone ↦ rw gone (member_gone same cid asked n among gone)
                | inr (d, there) ↦ rw there tt
              ])))

  pub god_nodes-Explained :
      Conforms Schema.god_nodes arguments → Explained (tool_god_nodes g r arguments s)
  unfolding tool_god_nodes
  god_nodes-Explained c =
      bind-ReturnsOr Why (int_of (optional "top_n" (Json.integer 10) arguments)) _
        (IsOk-ReturnsOr Why _ (integer_or 1 (some 500) 10 _ c.admitted.0)) (λ top_n e. tt)

  pub shortest_path-Explained :
      name ≡ "shortest_path" → Explained (tool_shortest_path g r arguments s)
  unfolding tool_shortest_path
  shortest_path-Explained same = raise-ReturnsOr Why _ (path_raised same)

  pub get_node-Explained :
      Conforms Schema.get_node arguments → Explained (tool_get_node g r arguments s)
  unfolding tool_get_node
  get_node-Explained c =
      let (label, e) =
        text_there (lookup String-discrete "label" arguments) c.has_required.0 c.admitted.0 in
      rw e (
        bind-ReturnsOr Why (matching g r _ (r.nodes s.graph)) _ (matching-Explained _ _ w.labels)
          (λ matches a.
            first_match-Explained _ matches
              (matching-IsLabelled g r _ (r.nodes s.graph) matches w.labels a)))

  neighbors_of-Explained :
      (rel_filter : Text) (nid : String)
      → IsNode g r s.graph nid
      → Explained (neighbors_of g r s.graph rel_filter nid)
  unfolding neighbors_of
  neighbors_of-Explained rel_filter nid n =
      bind-ReturnsOr Why (node_data g r s.graph nid) _ (IsOk-ReturnsOr Why _ n) (λ x a.
        bind-ReturnsOr Why (sanitize g r (get "label" (Value.text nid) x)) _
          (label-Explained nid x a)
          (λ text b.
            bind-ReturnsOr Why (collect _ (r.successors s.graph nid)) _
              (collect-ReturnsOr Why _ (r.successors s.graph nid)
                (All-map (λ nb. neighbor_lines-Explained _ rel_filter nb _) _ (w.successors nid n)))
              (λ out d.
                bind-ReturnsOr Why (collect _ (r.predecessors s.graph nid)) _
                  (collect-ReturnsOr Why _ (r.predecessors s.graph nid) (
                    All-map (λ nb. neighbor_lines-Explained _ rel_filter nb _) _
                      (w.predecessors nid n)))
                  (λ back e. tt))))

  neighbors_text-Explained :
      (label rel_filter : Text) (found : List String)
      → IsOk (int_of (optional "token_budget" (Json.integer 2000) arguments))
      → All (IsNode g r s.graph) found
      → Explained (neighbors_text g r s.graph arguments label rel_filter found)
  neighbors_text-Explained label rel_filter [] b n = tt
  neighbors_text-Explained label rel_filter (nid ∷ rest) b n =
      bind-ReturnsOr Why (neighbors_of g r s.graph rel_filter nid) _
        (neighbors_of-Explained rel_filter nid n.0)
        (λ lines a. bind-ReturnsOr Why _ _ (IsOk-ReturnsOr Why _ b) (λ budget e. tt))

  pub get_neighbors-Explained :
      Conforms Schema.get_neighbors arguments → Explained (tool_get_neighbors g r arguments s)
  unfolding tool_get_neighbors
  get_neighbors-Explained c =
      let (label, e) =
        text_there (lookup String-discrete "label" arguments) c.has_required.0 c.admitted.0 in
      let (relation, f) =
        text_or "" (lookup String-discrete "relation_filter" arguments) c.admitted.1.0 in
      rw (e, f)
        (neighbors_text-Explained _ _ _ (integer_or 1 (some 20000) 2000 _ c.admitted.1.1.0)
          (w.found _))
