-- ===== src/Query/Tools/Dispatch.antt =====
-- graph_query_api/tools.py: `build_handlers`. A call looks into the cache, executes its tool off the event
-- loop, and stores the result; other calls can come in between, so that these are two steps.
pub mod Laws
pub mod World
pub mod Listed
pub mod Keys
pub mod Invariant
pub mod Coherence
pub mod Transparency
pub mod Errors
pub mod Effects
use graphify_daemon_portfoli.Prelude.{
  ℕ, Bool, true, false, Option, none, some, List, [], ◌∷◌, ◌++◌, String, String-discrete, ite,
  if◌then◌else◌,
}
use graphify_daemon_portfoli.Prelude.Exec.{Result, ok, raise}
use graphify_daemon_portfoli.Prelude.Fallible.{◌>>=◌}
use graphify_daemon_portfoli.Prelude.Text.{Text, codes}
use graphify_daemon_portfoli.Graphify.{Graphify}
use graphify_daemon_portfoli.Compiler.Snapshot.{GraphSnapshot}
use graphify_daemon_portfoli.Lifecycle.Metrics.{Metrics, record_latency}
use graphify_daemon_portfoli.Query.Cache.{QueryCache, CacheKey, CacheKey-discrete, get, set}
use graphify_daemon_portfoli.Query.Tools.{
  Json, Arguments, required, optional, int_of, text_of, texts_of, Reader,
}
use graphify_daemon_portfoli.Query.Tools.Schema.{Tool, tool_by_name, Validator}
use graphify_daemon_portfoli.Query.Tools.Handlers.{execute_tool}
use mathlib.Core.Option

-- `CallToolRequestParams`, `CallToolResult`
pub record Request : Type 0 where
  pub name : String
  pub arguments : Option Arguments

pub record CallToolResult : Type 0 where
  pub is_error : Bool
  pub text : Text

-- The cache of `query_graph` results.
abbrev pub Cache : Type 0
Cache = QueryCache CacheKey Text

-- `_error_result`
unfoldable pub error_result : Text → CallToolResult
error_result message = record { is_error = true; text = message }

unfoldable pub text_result : Text → CallToolResult
text_result text = record { is_error = false; text = text }

unfoldable pub tool_failed : String → CallToolResult
unfolding error_result
tool_failed name =
    error_result (codes "Tool " ++ (codes name ++ codes " failed. See daemon logs for detail."))

-- `tuple(context_filter) if context_filter else None`
abbrev pub filters_key : Option (List String) → Option (List String)
filters_key none = none
filters_key (some []) = none
filters_key (some (f ∷ fs)) = some (f ∷ fs)

-- `cache_kwargs`
unfoldable pub cache_key : Arguments → ℕ → Result CacheKey
cache_key arguments version = do
  context_filter ← texts_of (optional "context_filter" Json.null arguments)
  question ← required "question" arguments >>= text_of
  mode ← text_of (optional "mode" (Json.text "bfs") arguments)
  depth ← int_of (optional "depth" (Json.integer 3) arguments)
  token_budget ← int_of (optional "token_budget" (Json.integer 2000) arguments)
  ok (record {
    version = version;
    question = question;
    mode = mode;
    depth = depth;
    token_budget = token_budget;
    context_filters = filters_key context_filter;
  })

module _ (g : Graphify) where
  -- A call whose tool is being executed, with the key for its result if the tool is cached.
  pub record Running : Type 0 where
    pub name : String
    pub arguments : Arguments
    pub snapshot : GraphSnapshot g
    pub key : Option CacheKey

  pub data Begun : Type 0 where
    answered : CallToolResult → Begun
    running : Running → Begun

  module _ (v : Validator) (r : Reader g) where
    -- The look into the cache.
    abbrev pub on_cached : Running → CacheKey → Option Text × Cache → Begun × Cache
    on_cached call key (some cached, looked) = (answered (text_result cached), looked)
    on_cached call key (none, looked) = (running (record call { key = some key }), looked)

    abbrev pub look_up : Running → CacheKey → Cache → Begun × Cache
    look_up call key cache = on_cached call key (get CacheKey-discrete key cache)

    abbrev pub look_up_key : Running → Result CacheKey → Cache → Begun × Cache
    look_up_key call (raise e) cache = (answered (tool_failed call.name), cache)
    look_up_key call (ok key) cache = look_up call key cache

    -- The arguments are valid.
    unfoldable pub start_tool : Running → Cache → Begun × Cache
    unfolding text_result tool_failed cache_key
    start_tool call cache =
        ite (String-discrete call.name "query_graph")
          (look_up_key call (cache_key call.arguments call.snapshot.version) cache)
          (running call, cache)

    abbrev pub validated : Running → Option String → Cache → Begun × Cache
    validated call (some message) cache = (
      answered (
          error_result
            (codes "Invalid arguments for " ++ (codes call.name ++ (codes ": " ++ codes message)))),
      cache,
    )
    validated call none cache = start_tool call cache

    abbrev pub on_snapshot : Request → Tool → Option (GraphSnapshot g) → Cache → Begun × Cache
    on_snapshot params tool none cache =
        (answered (error_result (codes "Graph not ready yet")), cache)
    on_snapshot params tool (some snapshot) cache =
        let arguments = Option.get_or params.arguments [] in
        validated
          (record { name = params.name; arguments = arguments; snapshot = snapshot; key = none })
          (v.validate tool arguments) cache

    abbrev pub on_tool : Request → Option Tool → Option (GraphSnapshot g) → Cache → Begun × Cache
    on_tool params none snapshot cache =
        (answered (error_result (codes "Unknown tool: " ++ r.repr params.name)), cache)
    on_tool params (some tool) snapshot cache = on_snapshot params tool snapshot cache

    -- `_dispatch`, up to the execution of the tool
    unfoldable pub begin : Request → Option (GraphSnapshot g) → Cache → Begun × Cache
    unfolding error_result start_tool
    begin params snapshot cache = on_tool params (tool_by_name params.name) snapshot cache

    abbrev store : Option CacheKey → Text → Cache → Cache
    store none text cache = cache
    store (some key) text cache = set CacheKey-discrete key text cache

    abbrev answer : Running → Result Text → Cache → CallToolResult × Cache
    answer call (raise e) cache = (tool_failed call.name, cache)
    answer call (ok text) cache = (text_result text, store call.key text cache)

    -- `_dispatch`, from the execution of the tool on
    unfoldable pub finish : Running → Cache → CallToolResult × Cache
    unfolding text_result tool_failed execute_tool
    finish call cache = answer call (execute_tool g r call.name call.arguments call.snapshot) cache

    abbrev pub finish_begun : Begun → Cache → CallToolResult × Cache
    finish_begun (answered result) cache = (result, cache)
    finish_begun (running call) cache = finish call cache

    -- `_dispatch`, if no other call comes in between
    unfoldable pub dispatch : Request → Option (GraphSnapshot g) → Cache → CallToolResult × Cache
    unfolding begin finish
    dispatch params snapshot cache =
        let (begun, looked) = begin params snapshot cache in finish_begun begun looked

    -- `on_call_tool`; the call takes `elapsed`.
    unfoldable pub on_call_tool :
        Request
        → Option (GraphSnapshot g)
        → ℕ
        → Cache × Option Metrics
        → CallToolResult × (Cache × Option Metrics)
    unfolding dispatch
    on_call_tool params snapshot elapsed (cache, metrics) =
        let (result, after) = dispatch params snapshot cache in
        (result, (after, Option.map (record_latency "query" elapsed) metrics))
