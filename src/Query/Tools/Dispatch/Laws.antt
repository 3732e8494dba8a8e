-- ===== src/Query/Tools/Dispatch/Laws.antt =====
-- graph_query_api/tools.py: the ways in which a call begins, and what they share.
use graphify_daemon_portfoli.Prelude.{
  ◌≡◌, refl, ◌⊎◌, inl, inr, arith, Option, none, some, String, String-discrete,
}
use graphify_daemon_portfoli.Prelude.Exec.{ok, Result-cases}
use graphify_daemon_portfoli.Graphify.{Graphify}
use graphify_daemon_portfoli.Compiler.Snapshot.{GraphSnapshot}
use graphify_daemon_portfoli.Query.Cache.{CacheKey}
use graphify_daemon_portfoli.Query.Tools.{Reader}
use graphify_daemon_portfoli.Query.Tools.Schema.{Tool, tool_by_name, Validator}
use graphify_daemon_portfoli.Query.Tools.Dispatch.{
  Request, Cache, Running, Begun, answered, running, begin, start_tool, validated, on_snapshot,
  on_tool, look_up, cache_key, tool_failed,
}

module _ (g : Graphify) (v : Validator) (r : Reader g) where
  abbrev pub HasNoKey : Begun g → Type 0
  HasNoKey (answered result) = Unit
  HasNoKey (running call) = call.key ≡ none

  -- A beginning that does not look into the cache.
  pub record IsPlain (f : Cache → Begun g × Cache) : Type 0 where
    pub begun : Begun g
    pub has_no_key : HasNoKey begun
    pub is_plain : (cache : Cache) → f cache ≡ (begun, cache)

  -- A beginning that looks into the cache, at the key of its query.
  pub record IsLook (current : Option (GraphSnapshot g)) (f : Cache → Begun g × Cache)
      : Type 0 where
    pub call : Running g
    pub key : CacheKey
    pub is_query : call.name ≡ "query_graph"
    pub is_current : current ≡ some call.snapshot
    pub has_key : cache_key call.arguments call.snapshot.version ≡ ok key
    pub is_look : (cache : Cache) → f cache ≡ look_up g v r call key cache

  abbrev pub Shape : Option (GraphSnapshot g) → (Cache → Begun g × Cache) → Type 0
  Shape current f = IsPlain f ⊎ IsLook current f

  start-Shape :
      (call : Running g) → call.key ≡ none → Shape (some call.snapshot) (start_tool g v r call)
  unfolding start_tool
  start-Shape call h = elim (String-discrete call.name "query_graph") [
    | no n ↦ inl (record { begun = running call; has_no_key = h; is_plain = λ cache. ground arith })
    | yes e ↦ elim (Result-cases (cache_key call.arguments call.snapshot.version)) [
      | inl (key, k) ↦ inr (record {
        call = call;
        key = key;
        is_query = e;
        is_current = refl;
        has_key = k;
        is_look = λ cache. rw k (ground arith);
      })
      | inr (x, k) ↦ inl (record {
        begun = answered (tool_failed call.name);
        has_no_key = tt;
        is_plain = λ cache. ground arith;
      })
    ]
  ]

  validated-Shape :
      (call : Running g) (message : Option String)
      → call.key ≡ none
      → Shape (some call.snapshot) (validated g v r call message)
  unfolding start_tool
  validated-Shape call none h = start-Shape call h
  validated-Shape call (some message) h =
      inl (record { begun = _; has_no_key = tt; is_plain = λ cache. refl })

  snapshot-Shape :
      (params : Request) (tool : Tool) (current : Option (GraphSnapshot g))
      → Shape current (on_snapshot g v r params tool current)
  snapshot-Shape params tool none =
      inl (record { begun = _; has_no_key = tt; is_plain = λ cache. refl })
  snapshot-Shape params tool (some s) = validated-Shape _ _ refl

  tool-Shape :
      (params : Request) (tool : Option Tool) (current : Option (GraphSnapshot g))
      → Shape current (on_tool g v r params tool current)
  tool-Shape params none current =
      inl (record { begun = _; has_no_key = tt; is_plain = λ cache. refl })
  tool-Shape params (some tool) current = snapshot-Shape params tool current

  pub begin-Shape :
      (params : Request) (current : Option (GraphSnapshot g))
      → Shape current (begin g v r params current)
  unfolding begin
  begin-Shape params current = tool-Shape params (tool_by_name params.name) current
