-- ===== src/Query/Tools/Dispatch/Coherence.antt =====
-- graph_query_api/tools.py with the cache and the holder: what the cache holds after publications and
-- concurrent calls in any order.
use graphify_daemon_portfoli.Prelude.{
  ℕ, ◌≡◌, refl, sym, ap, ◌∙◌, inl, inr, arith, Option, none, some, List, ◌++◌, All, All-take_out,
  subst, Option-cases,
}
use graphify_daemon_portfoli.Prelude.Dict.{Dict, lookup}
use graphify_daemon_portfoli.Prelude.Exec.{ok, Result-cases}
use graphify_daemon_portfoli.Prelude.Text.{Text}
use graphify_daemon_portfoli.Graphify.{Graphify}
use graphify_daemon_portfoli.Compiler.Snapshot.{GraphSnapshot}
use graphify_daemon_portfoli.Query.Cache.{CacheKey, CacheKey-discrete, get, set}
use graphify_daemon_portfoli.Query.Cache.Laws.{
  IsValid, get-IsValid, set-IsValid, lookup-get, lookup-set,
}
use graphify_daemon_portfoli.Query.Tools.{Reader}
use graphify_daemon_portfoli.Query.Tools.Handlers.{execute_tool}
use graphify_daemon_portfoli.Query.Tools.Schema.{Validator}
use graphify_daemon_portfoli.Query.Tools.Dispatch.Laws.{HasNoKey, begin-Shape}
use graphify_daemon_portfoli.Query.Tools.Dispatch.{
  look_up, on_cached, Request, Cache, Running, Begun, answered, running, finish,
}
use graphify_daemon_portfoli.Query.Tools.Dispatch.World.{
  World, with_call, begins, finishes, publishing, beginning, finishing, Reachable, started, stepped,
}
use graphify_daemon_portfoli.Query.Tools.Dispatch.Keys.{
  IgnoresEmptyFilters, Answers, cache_key-version, answer_lem,
}
use graphify_daemon_portfoli.Query.Tools.Dispatch.Invariant.{
  IsKeyed, IsFair, IsCoherent, start-IsCoherent, publish-IsCoherent,
}

module _ (g : Graphify) (v : Validator) (r : Reader g) where
  -- A changed cache and changed calls are coherent if what the cache holds still answers.
  changed-IsCoherent :
      (cache : Cache) (calls : List (Running g)) {w : World g v r}
      → IsCoherent g v r w
      → IsValid CacheKey-discrete cache
      → ((k : CacheKey) (t : Text)
          → lookup CacheKey-discrete k cache.entries ≡ some t
          → Answers g r w.published k t)
      → All (IsFair g v r w.published) calls
      → IsCoherent g v r (record w { cache = cache; calls = calls })
  changed-IsCoherent cache calls c valid sound fair = record {
    valid = valid;
    fresh = c.fresh;
    served = c.served;
    sound = sound;
    fair = fair;
  }

  no_key-IsFair :
      (begun : Begun g) (published : Dict ℕ (GraphSnapshot g)) (calls : List (Running g))
      → HasNoKey g v r begun
      → All (IsFair g v r published) calls
      → All (IsFair g v r published) (with_call g v r begun calls)
  no_key-IsFair (answered result) published calls h fair = fair
  no_key-IsFair (running call) published calls h fair = (λ k e. cc, fair)

  cache-on_cached :
      (call : Running g) (k : CacheKey) (looked : Option Text × Cache)
      → (on_cached g v r call k looked).1 ≡ looked.1
  cache-on_cached call k (none, cache) = refl
  cache-on_cached call k (some t, cache) = refl

  on_cached-IsFair :
      (call : Running g) (key : CacheKey) (looked : Option Text × Cache)
      (published : Dict ℕ (GraphSnapshot g)) (calls : List (Running g))
      → IsKeyed g v r published call key
      → All (IsFair g v r published) calls
      → All (IsFair g v r published) (with_call g v r (on_cached g v r call key looked).0 calls)
  on_cached-IsFair call key (some t, cache) published calls keyed fair = fair
  on_cached-IsFair call key (none, cache) published calls keyed fair = (
    λ k e. record {
      is_query = keyed.is_query;
      is_published = keyed.is_published;
      has_key = ground (arith, keyed.has_key);
    },
    fair,
  )

  begin-IsCoherent :
      (params : Request) {w : World g v r}
      → IsCoherent g v r w
      → IsCoherent g v r (begins g v r params w)
  begin-IsCoherent params {w} c = elim (begin-Shape g v r params w.holder.current) [
    | inl plain ↦ rw (plain.is_plain w.cache) (
        changed-IsCoherent w.cache (with_call g v r plain.begun w.calls) c c.valid c.sound
          (no_key-IsFair plain.begun w.published w.calls plain.has_no_key c.fair))
    | inr look ↦
        rw
          (
            look.is_look w.cache,
            cache-on_cached look.call look.key (get CacheKey-discrete look.key w.cache),
          )
          (changed-IsCoherent (get CacheKey-discrete look.key w.cache).1
            (with_call g v r (look_up g v r look.call look.key w.cache).0 w.calls) c
            (get-IsValid CacheKey-discrete look.key c.valid)
            (λ k t h. c.sound k t (lookup-get CacheKey-discrete look.key k t w.cache c.valid h))
            (on_cached-IsFair look.call look.key (get CacheKey-discrete look.key w.cache)
              w.published w.calls
              (record {
                is_query = look.is_query;
                is_published = c.served look.call.snapshot look.is_current;
                has_key = look.has_key;
              })
              c.fair))
  ]

  -- What a finished call stores answers its key.
  store-Answers :
      (ignores : IgnoresEmptyFilters g r) (call : Running g) (key : CacheKey) (t : Text)
      {published : Dict ℕ (GraphSnapshot g)}
      → IsKeyed g v r published call key
      → execute_tool g r call.name call.arguments call.snapshot ≡ ok t
      → Answers g r published key t
  store-Answers ignores call key t {published} keyed h = record {
    snapshot = call.snapshot;
    is_published =
        rw (cache_key-version g r call.arguments call.snapshot.version key keyed.has_key)
          keyed.is_published;
    is_answer = sym (answer_lem g r ignores call key keyed.is_query keyed.has_key) ∙ h;
  }

  stored :
      (ignores : IgnoresEmptyFilters g r) (call : Running g) (key : CacheKey) (t : Text)
      {w : World g v r}
      → IsCoherent g v r w
      → IsKeyed g v r w.published call key
      → execute_tool g r call.name call.arguments call.snapshot ≡ ok t
      → (k : CacheKey) (u : Text)
      → lookup CacheKey-discrete k (set CacheKey-discrete key t w.cache).entries ≡ some u
      → Answers g r w.published k u
  stored ignores call key t {w} c keyed x k u h =
      elim (lookup-set CacheKey-discrete key k t u w.cache c.valid h) [
        | inl (same_key, same_text) ↦
            subst {A = CacheKey × Text} (λ p. Answers g r w.published p.0 p.1)
              (ap (λ j. (j, t)) same_key ∙ ap (λ z. (k, z)) same_text)
              (store-Answers ignores call key t keyed x)
        | inr before ↦ c.sound k u before
      ]

  -- The cache after a finished call.
  finish-IsCoherent :
      (ignores : IgnoresEmptyFilters g r) (call : Running g) (rest : List (Running g))
      {w : World g v r}
      → IsCoherent g v r w
      → IsFair g v r w.published call
      → All (IsFair g v r w.published) rest
      → IsCoherent g v r (finishes g v r call rest w)
  unfolding finish
  finish-IsCoherent ignores call rest {w} c fair others =
      elim (Result-cases (execute_tool g r call.name call.arguments call.snapshot)) [
        | inr (e, x) ↦ rw x (changed-IsCoherent w.cache rest c c.valid c.sound others)
        | inl (t, x) ↦ elim (Option-cases call.key) [
          | inl none_there ↦
              rw (x, none_there) (changed-IsCoherent w.cache rest c c.valid c.sound others)
          | inr (key, there) ↦
              rw (x, there)
                (changed-IsCoherent (set CacheKey-discrete key t w.cache) rest c
                  (set-IsValid CacheKey-discrete key t c.valid)
                  (stored ignores call key t c (fair key there) x) others)
        ]
      ]

  pub reachable-IsCoherent :
      (ignores : IgnoresEmptyFilters g r) (maxsize : ℕ) {w : World g v r}
      → Reachable g v r maxsize w
      → IsCoherent g v r w
  reachable-IsCoherent ignores maxsize started = start-IsCoherent g v r maxsize
  reachable-IsCoherent ignores maxsize (stepped before (publishing graph communities)) =
      publish-IsCoherent g v r graph communities (reachable-IsCoherent ignores maxsize before)
  reachable-IsCoherent ignores maxsize (stepped before (beginning params)) =
      begin-IsCoherent params (reachable-IsCoherent ignores maxsize before)
  reachable-IsCoherent ignores maxsize (stepped {w} before (finishing first call after split)) =
      let c = reachable-IsCoherent ignores maxsize before in
      let (fair, others) =
        All-take_out (IsFair g v r w.published) first call after
          (subst (All (IsFair g v r w.published)) split c.fair) in
      finish-IsCoherent ignores call (first ++ after) c fair others
