-- ===== src/Query/Tools/Dispatch/Errors.antt =====
-- graph_query_api/tools.py: why a valid call on a well-formed graph gets an error.
use graphify_daemon_portfoli.Prelude.{
  ◌≡◌, refl, sym, ap, ◌∙◌, subst, inl, inr, arith, true, Option, none, some, List, [], ◌∷◌, String,
  String-discrete, All, Bool-cases, str_eq, eq_iff, if_pos, if_neg,
}
use graphify_daemon_portfoli.Prelude.Dict.{lookup}
use graphify_daemon_portfoli.Prelude.Exec.{ok, Result-cases}
use graphify_daemon_portfoli.Prelude.Fallible.{ReturnsOr}
use graphify_daemon_portfoli.Graphify.{Graphify}
use graphify_daemon_portfoli.Compiler.Snapshot.{GraphSnapshot}
use graphify_daemon_portfoli.Query.Cache.{CacheKey, CacheKey-discrete, get}
use graphify_daemon_portfoli.Prelude.Text.{Text}
use graphify_daemon_portfoli.Query.Tools.{Arguments, Reader}
use graphify_daemon_portfoli.Query.Tools.Schema.{
  Tool, tool_by_name, tool_definitions, find_tool, Conforms, Validator,
}
use graphify_daemon_portfoli.Query.Tools.Summaries.{tool_graph_stats}
use graphify_daemon_portfoli.Query.Tools.Handlers.{execute_tool, tool_query_graph}
use graphify_daemon_portfoli.Query.Tools.Handlers.Causes.{IsWellFormed, Cause}
use graphify_daemon_portfoli.Query.Tools.Handlers.Explained.{
  query_graph-Explained, get_node-Explained, get_neighbors-Explained, get_community-Explained,
  god_nodes-Explained, shortest_path-Explained,
}
use graphify_daemon_portfoli.Query.Tools.Dispatch.{
  Request, Cache, Running, running, text_result, cache_key, on_cached, start_tool, begin, finish,
  finish_begun, dispatch,
}
use mathlib.Core.Option

find_tool-All :
    (P : Tool → Type 0) (name : String) (tool : Tool) (ts : List Tool)
    → All P ts
    → find_tool name ts ≡ some tool
    → P tool × (tool.name ≡ name)
find_tool-All P name tool [] ps h = absurd (ground arith)
find_tool-All P name tool (t ∷ ts) ps h = elim (Bool-cases (str_eq t.name name)) [
  | inl same ↦
      let e : t ≡ tool = ground arith in
      (subst P e ps.0, ap (λ u. u.name) (sym e) ∙ (eq_iff t.name name).0 same)
  | inr other ↦ find_tool-All P name tool ts ps.1 (ground arith)
]

module _ (g : Graphify) (r : Reader g) where
  -- A tool that runs under its own name returns or has a cause.
  abbrev Runs : GraphSnapshot g → Arguments → String → Tool → Type 0
  Runs s arguments name tool =
      name ≡ tool.name
      → Conforms tool arguments
      → ReturnsOr (Cause g r s name arguments) (execute_tool g r tool.name arguments s)

  all-Runs :
      (s : GraphSnapshot g) (arguments : Arguments) (name : String)
      → IsWellFormed g r s.graph
      → All (Runs s arguments name) tool_definitions
  unfolding execute_tool lookup String-discrete tool_graph_stats
  all-Runs s arguments name w = (
    query_graph-Explained g r s name arguments w,
    (
      λ same c. get_node-Explained g r s name arguments w c,
      (
        λ same c. get_neighbors-Explained g r s name arguments w c,
        (
          get_community-Explained g r s name arguments w,
          (
            λ same c. god_nodes-Explained g r s name arguments w c,
            (λ same c. tt, (λ same c. shortest_path-Explained g r s name arguments w same, tt)),
          ),
        ),
      ),
    ),
  )

  execute_tool-ReturnsOr :
      (name : String) (tool : Tool) (arguments : Arguments) (s : GraphSnapshot g)
      → tool_by_name name ≡ some tool
      → Conforms tool arguments
      → IsWellFormed g r s.graph
      → ReturnsOr (Cause g r s name arguments) (execute_tool g r name arguments s)
  unfolding tool_by_name
  execute_tool-ReturnsOr name tool arguments s h c w =
      let (runs, same) =
        find_tool-All (Runs s arguments name) name tool tool_definitions
          (all-Runs s arguments name w) h in
      subst (λ n. ReturnsOr (Cause g r s name arguments) (execute_tool g r n arguments s)) same
        (runs (sym same) c)

  -- The key of a query needs no more of the arguments than the query itself.
  cache_key-ReturnsOr :
      (C : Type 0) (arguments : Arguments) (s : GraphSnapshot g)
      → ReturnsOr C (tool_query_graph g r arguments s)
      → ReturnsOr C (cache_key arguments s.version)
  unfolding tool_query_graph cache_key
  cache_key-ReturnsOr C arguments s h = ground (arith, h)

module _ (g : Graphify) (v : Validator) (r : Reader g) (C : Type 0) where
  finish-error :
      (call : Running g) (cache : Cache)
      → ReturnsOr C (execute_tool g r call.name call.arguments call.snapshot)
      → (finish g v r call cache).0.is_error ≡ true
      → C
  unfolding finish text_result
  finish-error call cache h error =
      elim (Result-cases (execute_tool g r call.name call.arguments call.snapshot)) [
        | inl (t, x) ↦ absurd (ground (arith, x, error))
        | inr (e, x) ↦ subst (ReturnsOr C) x h
      ]

  on_cached-error :
      (call : Running g) (key : CacheKey) (looked : Option Text × Cache)
      → ReturnsOr C (execute_tool g r call.name call.arguments call.snapshot)
      → (let (begun, cache) = on_cached g v r call key looked in
          (finish_begun g v r begun cache).0.is_error)
        ≡ true
      → C
  unfolding text_result
  on_cached-error call key (none, cache) h error =
      finish-error (record call { key = some key }) cache h error
  on_cached-error call key (some t, cache) h error = absurd cc

  query-key-ReturnsOr :
      (call : Running g)
      → ReturnsOr C (execute_tool g r call.name call.arguments call.snapshot)
      → call.name ≡ "query_graph"
      → ReturnsOr C (cache_key call.arguments call.snapshot.version)
  unfolding execute_tool lookup String-discrete
  query-key-ReturnsOr call h e =
      cache_key-ReturnsOr g r C call.arguments call.snapshot
        (subst (λ n. ReturnsOr C (execute_tool g r n call.arguments call.snapshot)) e h)

  start_tool-query :
      (call : Running g) (key : CacheKey) (cache : Cache)
      → call.name ≡ "query_graph"
      → cache_key call.arguments call.snapshot.version ≡ ok key
      → start_tool g v r call cache ≡ on_cached g v r call key (get CacheKey-discrete key cache)
  unfolding start_tool
  start_tool-query call key cache e k =
      rw (if_pos (String-discrete call.name "query_graph") e, k) refl

  start_tool-other :
      (call : Running g) (cache : Cache)
      → ¬ (call.name ≡ "query_graph")
      → start_tool g v r call cache ≡ (running call, cache)
  unfolding start_tool
  start_tool-other call cache n = rw (if_neg (String-discrete call.name "query_graph") n) refl

  start-error :
      (call : Running g) (cache : Cache)
      → ReturnsOr C (execute_tool g r call.name call.arguments call.snapshot)
      → (let (begun, looked) = start_tool g v r call cache in
          (finish_begun g v r begun looked).0.is_error)
        ≡ true
      → C
  start-error call cache h error = elim (String-discrete call.name "query_graph") [
    | no n ↦ finish-error call cache h (
        ap (λ x. (finish_begun g v r x.0 x.1).0.is_error) (sym (start_tool-other call cache n))
        ∙ error)
    | yes e ↦ elim (Result-cases (cache_key call.arguments call.snapshot.version)) [
      | inl (key, k) ↦ on_cached-error call key (get CacheKey-discrete key cache) h (
          ap (λ x. (finish_begun g v r x.0 x.1).0.is_error)
            (sym (start_tool-query call key cache e k))
          ∙ error)
      | inr (x, k) ↦ subst (ReturnsOr C) k (query-key-ReturnsOr call h e)
    ]
  ]

module _ (g : Graphify) (v : Validator) (r : Reader g) where
  -- A valid call of a known tool on a snapshot.
  begin-known :
      (params : Request) (tool : Tool) (s : GraphSnapshot g) (cache : Cache)
      → tool_by_name params.name ≡ some tool
      → v.validate tool (Option.get_or params.arguments []) ≡ none
      → begin g v r params (some s) cache
        ≡ start_tool g v r
            (record {
              name = params.name;
              arguments = Option.get_or params.arguments [];
              snapshot = s;
              key = none;
            })
            cache
  unfolding begin
  begin-known params tool s cache known valid = rw (known, valid) refl

  -- If a call of one of the seven tools, with arguments that the validator accepts, on a served snapshot
  -- whose graph is well formed, gets an error result, then the library raised, for the question of
  -- query_graph or for the arguments of shortest_path, or the tool is get_community and the community that
  -- it asks for has a member that is not in the graph; whatever the cache holds.
  pub valid_call_error :
      (params : Request) (tool : Tool) (s : GraphSnapshot g) (cache : Cache)
      → tool_by_name params.name ≡ some tool
      → v.validate tool (Option.get_or params.arguments []) ≡ none
      → IsWellFormed g r s.graph
      → (dispatch g v r params (some s) cache).0.is_error ≡ true
      → Cause g r s params.name (Option.get_or params.arguments [])
  unfolding dispatch
  valid_call_error params tool s cache known valid w error =
      let arguments = Option.get_or params.arguments [] in
      start-error g v r (Cause g r s params.name arguments)
        (record { name = params.name; arguments = arguments; snapshot = s; key = none }) cache
        (execute_tool-ReturnsOr g r params.name tool arguments s known (v.sound tool _ valid) w)
        (ap (λ x. (finish_begun g v r x.0 x.1).0.is_error)
            (sym (begin-known params tool s cache known valid))
          ∙ error)
