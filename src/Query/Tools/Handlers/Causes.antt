-- ===== src/Query/Tools/Handlers/Causes.antt =====
-- graph_query_api/tools.py: on a well-formed graph, with arguments that conform to the schema of the tool,
-- why a handler may raise.
use graphify_daemon_portfoli.Prelude.{
  ℕ, ◌≡◌, none, List, [], String, String-discrete, ℕ_discrete, All,
}
use graphify_daemon_portfoli.Prelude.Dict.{lookup}
use graphify_daemon_portfoli.Prelude.Exec.{Error, ok, raise, key_error, or_raise}
use graphify_daemon_portfoli.Prelude.Fallible.{◌>>=◌, IsOk}
use graphify_daemon_portfoli.Prelude.Text.{Text, Value}
use graphify_daemon_portfoli.Graphify.{Attrs, Graphify}
use graphify_daemon_portfoli.Compiler.Snapshot.{GraphSnapshot}
use graphify_daemon_portfoli.Query.Tools.{Json, Arguments, required, int_of, Query, Reader}
use graphify_daemon_portfoli.Query.Tools.Schema.{IsAmong}
use graphify_daemon_portfoli.Query.Tools.Attributes.{get}
use mathlib.Core.Option

module _ (g : Graphify) (r : Reader g) where
  abbrev pub IsNode : g.Graph → String → Type 0
  IsNode graph n = IsOk (or_raise key_error (lookup String-discrete n (r.nodes graph)))

  abbrev pub IsText : Value → Type 0
  IsText x = (s : String) × (x ≡ Value.text s)

  -- A neighbour over an edge with these attributes: a node, and a relation that is a text, if there is one.
  abbrev pub IsNeighbor : g.Graph → String → Attrs → Type 0
  IsNeighbor graph nb d = IsNode graph nb × IsText (get "relation" (Value.text "") d)

  -- A node with its attributes: its label is a text, if it has one.
  abbrev pub IsLabelled : String × Attrs → Type 0
  IsLabelled (n, d) = IsText (get "label" (Value.text n) d)

  -- A graph as the library builds it: labels are texts, the nodes that are found are nodes, and so are the
  -- neighbours of nodes.
  pub record IsWellFormed (graph : g.Graph) : Type 0 where
    pub labels : All IsLabelled (r.nodes graph)
    pub found : (label : Text) → All (IsNode graph) (r.find_node graph label)
    pub successors :
        (n : String)
        → IsNode graph n
        → All (λ nb. IsNeighbor graph nb (r.edge_data graph n nb)) (r.successors graph n)
    pub predecessors :
        (n : String)
        → IsNode graph n
        → All (λ nb. IsNeighbor graph nb (r.edge_data graph nb n)) (r.predecessors graph n)

  abbrev pub members_of : GraphSnapshot g → ℕ → List String
  members_of s cid = Option.get_or (lookup ℕ_discrete cid s.community_map) []

  -- Why a call of a tool on a snapshot raises: the library raised, for the question of query_graph or for
  -- the arguments of shortest_path; or the community that get_community asks for has a member that is not in
  -- the graph.
  pub data Cause (s : GraphSnapshot g) (name : String) (arguments : Arguments) : Type 0 where
    query_raised :
        name ≡ "query_graph"
        → (q : Query) → required "question" arguments ≡ ok (Json.text q.question)
        → (e : Error) → r.query_graph_text s.graph q ≡ raise e
        → Cause s name arguments
    path_raised :
        name ≡ "shortest_path"
        → (e : Error) → r.shortest_path_text s.graph arguments ≡ raise e
        → Cause s name arguments
    member_gone :
        name ≡ "get_community"
        → (cid : ℕ) → (required "community_id" arguments >>= int_of) ≡ ok cid
        → (n : String) → IsAmong n (members_of s cid)
        → lookup String-discrete n (r.nodes s.graph) ≡ none
        → Cause s name arguments
