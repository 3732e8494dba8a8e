-- ===== src/Query/Tools/Dispatch/Effects.antt =====
-- graph_query_api/tools.py: what a call leaves behind in the cache and in the registry.
use graphify_daemon_portfoli.Prelude.{
  ℕ, suc, ◌≡◌, ◌≤◌, length, refl, sym, ap, ◌∙◌, subst, inl, inr, arith, true, Option, none, some,
  List, [], ◌∷◌, ◌++◌, map,
}
use graphify_daemon_portfoli.Prelude.Text.{Text}
use graphify_daemon_portfoli.Prelude.Exec.{Result-cases}
use graphify_daemon_portfoli.Prelude.Window.{last}
use graphify_daemon_portfoli.Graphify.{Graphify}
use graphify_daemon_portfoli.Compiler.Snapshot.{GraphSnapshot}
use graphify_daemon_portfoli.Lifecycle.Metrics.{Metrics, samples, record_latency}
use graphify_daemon_portfoli.Lifecycle.Metrics.Laws.{record_all, samples-record_all}
use graphify_daemon_portfoli.Query.Cache.{CacheKey, CacheKey-discrete, get}
use graphify_daemon_portfoli.Query.Cache.Laws.{get-lookup, entries-get_miss}
use graphify_daemon_portfoli.Query.Tools.{Reader}
use graphify_daemon_portfoli.Query.Tools.Schema.{Validator}
use graphify_daemon_portfoli.Query.Tools.Handlers.{execute_tool}
use graphify_daemon_portfoli.Query.Tools.Dispatch.{
  Request, Cache, CallToolResult, Running, Begun, answered, running, text_result, on_cached, finish,
  finish_begun, dispatch, on_call_tool,
}
use graphify_daemon_portfoli.Query.Tools.Dispatch.Laws.{HasNoKey, begin-Shape}
use mathlib.Core.Option

module _ (g : Graphify) (v : Validator) (r : Reader g) where
  -- A failed execution leaves the cache as it is.
  finish-error :
      (call : Running g) (cache : Cache)
      → (finish g v r call cache).0.is_error ≡ true
      → (finish g v r call cache).1 ≡ cache
  unfolding finish text_result
  finish-error call cache h =
      elim (Result-cases (execute_tool g r call.name call.arguments call.snapshot)) [
        | inl (t, x) ↦ absurd (ground arith)
        | inr (e, x) ↦ rw x refl
      ]

  finish-no_key :
      (call : Running g) (cache : Cache) → call.key ≡ none → (finish g v r call cache).1 ≡ cache
  unfolding finish
  finish-no_key call cache h =
      elim (Result-cases (execute_tool g r call.name call.arguments call.snapshot)) [
        | inl (t, x) ↦ rw (x, h) refl
        | inr (e, x) ↦ rw x refl
      ]

  plain-keeps :
      (b : Begun g) (cache : Cache) → HasNoKey g v r b → (finish_begun g v r b cache).1 ≡ cache
  plain-keeps (answered result) cache h = refl
  plain-keeps (running call) cache h = finish-no_key call cache h

  look-keeps :
      (call : Running g) (key : CacheKey) (looked : Option Text × Cache)
      → (let (begun, cache) = on_cached g v r call key looked in
          (finish_begun g v r begun cache).0.is_error)
        ≡ true
      → (looked.0 ≡ none)
        × ((let (begun, cache) = on_cached g v r call key looked in
              (finish_begun g v r begun cache).1)
            ≡ looked.1)
  unfolding text_result
  look-keeps call key (none, cache) h =
      (refl, finish-error (record call { key = some key }) cache h)
  look-keeps call key (some t, cache) h = absurd (ground arith)

  -- A call that is answered with an error leaves the entries of the cache as they were: errors are never
  -- cached, and none evicts or reorders an entry.
  pub dispatch-error_keeps :
      (params : Request) (current : Option (GraphSnapshot g)) (cache : Cache)
      → (dispatch g v r params current cache).0.is_error ≡ true
      → (dispatch g v r params current cache).1.entries ≡ cache.entries
  unfolding dispatch
  dispatch-error_keeps params current cache h = elim (begin-Shape g v r params current) [
    | inl plain ↦
        rw (plain.is_plain cache)
          (ap (λ c. c.entries) (plain-keeps plain.begun cache plain.has_no_key))
    | inr look ↦
        let (missed, kept) =
          look-keeps look.call look.key (get CacheKey-discrete look.key cache)
            (subst (λ b. (finish_begun g v r b.0 b.1).0.is_error ≡ true) (look.is_look cache) h) in
        rw (look.is_look cache) (
          ap (λ c. c.entries) kept
          ∙ entries-get_miss CacheKey-discrete look.key cache
              (sym (get-lookup CacheKey-discrete look.key cache) ∙ missed))
  ]

  -- One request after another, each with the served snapshot and the time that it takes.
  pub record Served : Type 0 where
    pub params : Request
    pub current : Option (GraphSnapshot g)
    pub elapsed : ℕ

  unfoldable pub serve_all :
      List Served → Cache × Option Metrics → List CallToolResult × (Cache × Option Metrics)
  serve_all [] s = ([], s)
  serve_all (c ∷ cs) s =
      let (result, after) = on_call_tool g v r c.params c.current c.elapsed s in
      let (results, end) = serve_all cs after in (result ∷ results, end)

  serve_all-metrics :
      (calls : List Served) (cache : Cache) (m : Metrics)
      → (serve_all calls (cache, some m)).1.1
        ≡ some (record_all "query" (map (λ c. c.elapsed) calls) m)
  unfolding serve_all on_call_tool record_all
  serve_all-metrics [] cache m = refl
  serve_all-metrics (c ∷ cs) cache m =
      serve_all-metrics cs (dispatch g v r c.params c.current cache).1
        (record_latency "query" c.elapsed m)

  length-serve_all :
      (calls : List Served) (s : Cache × Option Metrics)
      → length (serve_all calls s).0 ≡ length calls
  unfolding serve_all
  length-serve_all [] s = refl
  length-serve_all (c ∷ cs) s =
      ap suc (length-serve_all cs (on_call_tool g v r c.params c.current c.elapsed s).1)

  -- Every call that is served, answered or failed, gets one result and adds exactly one sample of its
  -- duration under "query", in order: with at most `latency_window` samples before, the samples are the
  -- last `latency_window` of the old and the new ones.
  pub one_sample_per_call :
      (calls : List Served) (cache : Cache) (m : Metrics)
      → length (samples "query" m) ≤ m.latency_window
      → (length (serve_all calls (cache, some m)).0 ≡ length calls)
        × (Option.map (samples "query") (serve_all calls (cache, some m)).1.1
            ≡ some (last m.latency_window (samples "query" m ++ map (λ c. c.elapsed) calls)))
  one_sample_per_call calls cache m h = (
    length-serve_all calls (cache, some m),
    ap (Option.map (samples "query")) (serve_all-metrics calls cache m)
        ∙ ap some (samples-record_all "query" (map (λ c. c.elapsed) calls) m h),
  )
