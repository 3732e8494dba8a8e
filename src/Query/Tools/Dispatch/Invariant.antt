-- ===== src/Query/Tools/Dispatch/Invariant.antt =====
-- graph_query_api/tools.py with the cache and the holder: what every step keeps, and that a publication
-- keeps it.
use graphify_daemon_portfoli.Prelude.{
  ℕ, ◌≤◌, ◌≡◌, refl, arith, none, some, ℕ_discrete, All, All-map,
}
use graphify_daemon_portfoli.Prelude.Dict.{Dict, lookup, put, lookup-put}
use graphify_daemon_portfoli.Prelude.Exec.{ok}
use graphify_daemon_portfoli.Prelude.Text.{Text}
use graphify_daemon_portfoli.Graphify.{Communities, Graphify}
use graphify_daemon_portfoli.Compiler.Snapshot.{GraphSnapshot, publish, new_holder}
use graphify_daemon_portfoli.Query.Cache.{CacheKey, CacheKey-discrete, init}
use graphify_daemon_portfoli.Query.Cache.Laws.{IsValid}
use graphify_daemon_portfoli.Query.Tools.{Reader}
use graphify_daemon_portfoli.Query.Tools.Schema.{Validator}
use graphify_daemon_portfoli.Query.Tools.Dispatch.{Running, cache_key}
use graphify_daemon_portfoli.Query.Tools.Dispatch.World.{World, start, publishes}
use graphify_daemon_portfoli.Query.Tools.Dispatch.Keys.{Answers}

module _ (g : Graphify) (v : Validator) (r : Reader g) where
  -- A call that runs with a key: its snapshot was published, and its key is the one of its query.
  pub record IsKeyed (published : Dict ℕ (GraphSnapshot g)) (call : Running g) (k : CacheKey)
      : Type 0 where
    pub is_query : call.name ≡ "query_graph"
    pub is_published : lookup ℕ_discrete call.snapshot.version published ≡ some call.snapshot
    pub has_key : cache_key call.arguments call.snapshot.version ≡ ok k

  abbrev pub IsFair : Dict ℕ (GraphSnapshot g) → Running g → Type 0
  IsFair published call = (k : CacheKey) → call.key ≡ some k → IsKeyed published call k

  -- What every step keeps.
  pub record IsCoherent (w : World g v r) : Type 0 where
    pub valid : IsValid CacheKey-discrete w.cache
    pub fresh : (n : ℕ) → w.holder.next_version ≤ n → lookup ℕ_discrete n w.published ≡ none
    pub served :
        (s : GraphSnapshot g)
        → w.holder.current ≡ some s
        → lookup ℕ_discrete s.version w.published ≡ some s
    pub sound :
        (k : CacheKey) (t : Text)
        → lookup CacheKey-discrete k w.cache.entries ≡ some t
        → Answers g r w.published k t
    pub fair : All (IsFair w.published) w.calls

  pub start-IsCoherent : (maxsize : ℕ) → IsCoherent (start g v r maxsize)
  unfolding init new_holder lookup
  start-IsCoherent maxsize = record {
    valid = record { bounded = omega arith; distinct = tt };
    fresh = λ n h. refl;
    served = λ s h. cc;
    sound = λ k t h. cc;
    fair = tt;
  }

  -- A publication under a new version keeps what was published.
  lookup-publish :
      (n version : ℕ) (s t : GraphSnapshot g) (d : Dict ℕ (GraphSnapshot g))
      → lookup ℕ_discrete version d ≡ none
      → lookup ℕ_discrete n d ≡ some s
      → lookup ℕ_discrete n (put ℕ_discrete version t d) ≡ some s
  lookup-publish n version s t d gone h = ground (arith, lookup-put ℕ_discrete version n t d)

  Answers-publish :
      (version : ℕ) (t : GraphSnapshot g) (d : Dict ℕ (GraphSnapshot g)) {k : CacheKey} {x : Text}
      → lookup ℕ_discrete version d ≡ none
      → Answers g r d k x
      → Answers g r (put ℕ_discrete version t d) k x
  Answers-publish version t d {k} gone a = record {
    snapshot = a.snapshot;
    is_published = lookup-publish k.version version a.snapshot t d gone a.is_published;
    is_answer = a.is_answer;
  }

  IsFair-publish :
      (version : ℕ) (t : GraphSnapshot g) (d : Dict ℕ (GraphSnapshot g)) (call : Running g)
      → lookup ℕ_discrete version d ≡ none
      → IsFair d call
      → IsFair (put ℕ_discrete version t d) call
  IsFair-publish version t d call gone f k h = record {
    is_query = (f k h).is_query;
    is_published =
        lookup-publish call.snapshot.version version call.snapshot t d gone (f k h).is_published;
    has_key = (f k h).has_key;
  }

  pub publish-IsCoherent :
      (graph : g.Graph) (communities : Communities) {w : World g v r}
      → IsCoherent w
      → IsCoherent (publishes g v r graph communities w)
  unfolding publish
  publish-IsCoherent graph communities {w} c = record {
    valid = c.valid;
    fresh = λ n h.
        ground
          (arith, c.fresh n, lookup-put ℕ_discrete w.holder.next_version n snapshot w.published);
    served = λ s h. ground (
      arith,
      lookup-put ℕ_discrete w.holder.next_version w.holder.next_version snapshot w.published,
    );
    sound =
        λ k t h. Answers-publish w.holder.next_version snapshot w.published gone (c.sound k t h);
    fair =
        All-map (λ call. IsFair-publish w.holder.next_version snapshot w.published call gone)
          w.calls c.fair;
  }
    where
      gone : lookup ℕ_discrete w.holder.next_version w.published ≡ none
      gone = c.fresh w.holder.next_version (omega arith)

      snapshot : GraphSnapshot g
      snapshot = (publish g graph communities w.holder).0
