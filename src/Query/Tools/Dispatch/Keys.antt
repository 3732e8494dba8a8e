-- ===== src/Query/Tools/Dispatch/Keys.antt =====
-- graph_query_api/tools.py: the key of a cached query and the query that it stands for.
use graphify_daemon_portfoli.Prelude.{
  ℕ, ◌≡◌, refl, inl, inr, arith, Option, none, some, List, [], ◌∷◌, String, ℕ_discrete,
  String-discrete,
}
use graphify_daemon_portfoli.Prelude.Dict.{Dict, lookup}
use graphify_daemon_portfoli.Prelude.Exec.{ok, Result-cases}
use graphify_daemon_portfoli.Prelude.Fallible.{◌>>=◌}
use graphify_daemon_portfoli.Prelude.Text.{Text}
use graphify_daemon_portfoli.Graphify.{Graphify}
use graphify_daemon_portfoli.Compiler.Snapshot.{GraphSnapshot}
use graphify_daemon_portfoli.Query.Cache.{CacheKey}
use graphify_daemon_portfoli.Query.Tools.{
  Json, Arguments, required, optional, text_of, texts_of, int_of, Query, Reader,
}
use graphify_daemon_portfoli.Query.Tools.Handlers.{tool_query_graph, execute_tool}
use graphify_daemon_portfoli.Query.Tools.Dispatch.{Running, cache_key, filters_key}

module _ (g : Graphify) (r : Reader g) where
  -- The query that a key stands for.
  abbrev pub query_of : CacheKey → Query
  query_of k = record {
    question = k.question;
    mode = k.mode;
    depth = k.depth;
    token_budget = k.token_budget;
    context_filters = k.context_filters;
  }

  -- The library answers an empty list of filters as it answers no list.
  abbrev pub IgnoresEmptyFilters : Type 0
  IgnoresEmptyFilters =
      (graph : g.Graph) (q : Query)
      → q.context_filters ≡ some []
      → r.query_graph_text graph q ≡ r.query_graph_text graph (record q { context_filters = none })

  -- A text answers a key: a snapshot with the key's version was published, and the text is what the
  -- library answers on its graph.
  pub record Answers (published : Dict ℕ (GraphSnapshot g)) (k : CacheKey) (t : Text) : Type 0 where
    pub snapshot : GraphSnapshot g
    pub is_published : lookup ℕ_discrete k.version published ≡ some snapshot
    pub is_answer : r.query_graph_text snapshot.graph (query_of k) ≡ ok t

  -- What the key is made of.
  pub cache_key-version :
      (arguments : Arguments) (version : ℕ) (k : CacheKey)
      → cache_key arguments version ≡ ok k
      → k.version ≡ version
  unfolding cache_key
  cache_key-version arguments version k h = ground arith

  abbrev query : String → String → ℕ → ℕ → Option (List String) → Query
  query question mode depth token_budget context_filters = record {
    question = question;
    mode = mode;
    depth = depth;
    token_budget = token_budget;
    context_filters = context_filters;
  }

  filters_ignored :
      (ignores : IgnoresEmptyFilters) (graph : g.Graph) (question mode : String)
      (depth token_budget : ℕ) (filters : Option (List String))
      → r.query_graph_text graph (query question mode depth token_budget filters)
        ≡ r.query_graph_text graph (query question mode depth token_budget (filters_key filters))
  filters_ignored ignores graph question mode depth token_budget none = refl
  filters_ignored ignores graph question mode depth token_budget (some []) =
      ignores graph (query question mode depth token_budget (some [])) refl
  filters_ignored ignores graph question mode depth token_budget (some (f ∷ fs)) = refl

  -- With a key, the handler asks the library the query that the key stands for.
  query_graph-key :
      (ignores : IgnoresEmptyFilters) (arguments : Arguments) (s : GraphSnapshot g) (k : CacheKey)
      → cache_key arguments s.version ≡ ok k
      → tool_query_graph g r arguments s ≡ r.query_graph_text s.graph (query_of k)
  unfolding cache_key tool_query_graph
  query_graph-key ignores arguments s k h =
      elim (Result-cases (texts_of (optional "context_filter" Json.null arguments))) [
        | inl (filters, f) ↦ elim (Result-cases (required "question" arguments >>= text_of)) [
          | inl (question, q) ↦
              elim (Result-cases (text_of (optional "mode" (Json.text "bfs") arguments))) [
                | inl (mode, m) ↦
                    elim (Result-cases (int_of (optional "depth" (Json.integer 3) arguments))) [
                      | inl (depth, d) ↦
                          elim (Result-cases
                            (int_of (optional "token_budget" (Json.integer 2000) arguments))) [
                              | inl (budget, b) ↦ ground (
                                arith,
                                filters_ignored ignores s.graph question mode depth budget filters,
                              )
                              | inr (e, x) ↦ ground arith
                            ]
                      | inr (e, x) ↦ ground arith
                    ]
                | inr (e, x) ↦ ground arith
              ]
          | inr (e, x) ↦ ground arith
        ]
        | inr (e, x) ↦ ground arith
      ]

  pub answer_lem :
      (ignores : IgnoresEmptyFilters) (call : Running g) (k : CacheKey)
      → call.name ≡ "query_graph"
      → cache_key call.arguments call.snapshot.version ≡ ok k
      → execute_tool g r call.name call.arguments call.snapshot
        ≡ r.query_graph_text call.snapshot.graph (query_of k)
  unfolding execute_tool lookup String-discrete
  answer_lem ignores call k is_query has_key =
      rw is_query (query_graph-key ignores call.arguments call.snapshot k has_key)
