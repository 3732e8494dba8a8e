-- ===== src/Query/Tools/Dispatch/Transparency.antt =====
-- graph_query_api/tools.py with the cache and the holder: a cached answer is the answer of the library on
-- the served snapshot.
use graphify_daemon_portfoli.Prelude.{
  ℕ, ◌≡◌, refl, sym, ap, ◌∙◌, inl, inr, Option, none, some, ℕ_discrete,
}
use graphify_daemon_portfoli.Prelude.Dict.{lookup}
use graphify_daemon_portfoli.Prelude.Exec.{ok, Result-cases}
use graphify_daemon_portfoli.Prelude.Text.{Text}
use graphify_daemon_portfoli.Graphify.{Graphify}
use graphify_daemon_portfoli.Query.Cache.{CacheKey, CacheKey-discrete, init, get}
use graphify_daemon_portfoli.Query.Cache.Laws.{get-lookup}
use graphify_daemon_portfoli.Query.Tools.{Reader}
use graphify_daemon_portfoli.Query.Tools.Handlers.{execute_tool}
use graphify_daemon_portfoli.Query.Tools.Schema.{Validator}
use graphify_daemon_portfoli.Query.Tools.Dispatch.Laws.{begin-Shape}
use graphify_daemon_portfoli.Query.Tools.Dispatch.{
  on_cached, dispatch, finish_begun, Request, Cache, Running, Begun, answered, running, finish,
}
use graphify_daemon_portfoli.Query.Tools.Dispatch.World.{World, Reachable}
use graphify_daemon_portfoli.Query.Tools.Dispatch.Keys.{
  query_of, IgnoresEmptyFilters, cache_key-version, answer_lem,
}
use graphify_daemon_portfoli.Query.Tools.Dispatch.Invariant.{IsKeyed, IsCoherent}
use graphify_daemon_portfoli.Query.Tools.Dispatch.Coherence.{reachable-IsCoherent}

module _ (g : Graphify) (v : Validator) (r : Reader g) where
  -- What a call answers does not depend on where its result is stored.
  finish-cache :
      (call : Running g) (c d : Cache) → (finish g v r call c).0 ≡ (finish g v r call d).0
  unfolding finish
  finish-cache call c d =
      elim (Result-cases (execute_tool g r call.name call.arguments call.snapshot)) [
        | inl (t, x) ↦ rw x refl
        | inr (e, x) ↦ rw x refl
      ]

  finish_begun-cache :
      (b : Begun g) (c d : Cache) → (finish_begun g v r b c).0 ≡ (finish_begun g v r b d).0
  finish_begun-cache (answered result) c d = refl
  finish_begun-cache (running call) c d = finish-cache call c d

  finish-key :
      (call : Running g) (key : Option CacheKey) (c : Cache)
      → (finish g v r (record call { key = key }) c).0 ≡ (finish g v r call c).0
  unfolding finish
  finish-key call key c =
      elim (Result-cases (execute_tool g r call.name call.arguments call.snapshot)) [
        | inl (t, x) ↦ rw x refl
        | inr (e, x) ↦ rw x refl
      ]

  -- A look that finds only what the tool answers does not show.
  on_cached-finish :
      (call : Running g) (key : CacheKey) (looked : Option Text × Cache) (c : Cache)
      → ((t : Text)
          → looked.0 ≡ some t
          → execute_tool g r call.name call.arguments call.snapshot ≡ ok t)
      → (let (begun, cache) = on_cached g v r call key looked in (finish_begun g v r begun cache).0)
        ≡ (finish g v r call c).0
  unfolding finish
  on_cached-finish call key (none, cache) c h =
      finish-key call (some key) cache ∙ finish-cache call cache c
  on_cached-finish call key (some t, cache) c h = rw (h t refl) refl

  -- What stands in a coherent cache under the key of a call is what its tool answers.
  found-answers :
      (ignores : IgnoresEmptyFilters g r) {w : World g v r} (call : Running g) (key : CacheKey)
      (t : Text)
      → IsCoherent g v r w
      → IsKeyed g v r w.published call key
      → lookup CacheKey-discrete key w.cache.entries ≡ some t
      → execute_tool g r call.name call.arguments call.snapshot ≡ ok t
  found-answers ignores {w} call key t c keyed found =
      let a = c.sound key t found in
      let version = cache_key-version g r call.arguments call.snapshot.version key keyed.has_key in
      let same : call.snapshot ≡ a.snapshot = cc (
        sym keyed.is_published
        ∙ ap (λ n. lookup ℕ_discrete n w.published) (sym version)
        ∙ a.is_published) in
      answer_lem g r ignores call key keyed.is_query keyed.has_key
      ∙ ap (λ s. r.query_graph_text s.graph (query_of g r key)) same
      ∙ a.is_answer

  -- In every world that publications and the steps of concurrent calls reach, in any order, a call that is
  -- dispatched gets exactly the answer that it would get from the served snapshot with an empty cache, if
  -- the graph library answers an empty list of filters as it answers no list.
  pub cached-Transparent :
      (ignores : IgnoresEmptyFilters g r) (maxsize : ℕ) {w : World g v r} (params : Request)
      → Reachable g v r maxsize w
      → (dispatch g v r params w.holder.current w.cache).0
        ≡ (dispatch g v r params w.holder.current (init CacheKey-discrete maxsize)).0
  unfolding dispatch init get lookup
  cached-Transparent ignores maxsize {w} params reachable =
      let c = reachable-IsCoherent g v r ignores maxsize reachable in
      elim (begin-Shape g v r params w.holder.current) [
        | inl plain ↦
            rw (plain.is_plain w.cache, plain.is_plain (init CacheKey-discrete maxsize))
              (finish_begun-cache plain.begun w.cache (init CacheKey-discrete maxsize))
        | inr look ↦
            let keyed : IsKeyed g v r w.published look.call look.key = record {
              is_query = look.is_query;
              is_published = c.served look.call.snapshot look.is_current;
              has_key = look.has_key;
            } in
            rw (look.is_look w.cache, look.is_look (init CacheKey-discrete maxsize))
              (on_cached-finish look.call look.key (get CacheKey-discrete look.key w.cache) w.cache
                  (λ t h.
                    found-answers ignores look.call look.key t c keyed
                      (sym (get-lookup CacheKey-discrete look.key w.cache) ∙ h))
                ∙ sym (
                    on_cached-finish look.call look.key
                      (get CacheKey-discrete look.key (init CacheKey-discrete maxsize)) w.cache
                      (λ t h. cc)))
      ]
