-- ===== src/Query/Cache.antt =====
-- graph_query_api/query_cache.py: the LRU cache of `query_graph` results. `entries` is the
-- `OrderedDict`, least recently used first. Every method body runs under the cache's lock, so
-- that a method is one step.
pub mod Laws
pub mod History
use graphify_daemon_portfoli.Prelude.{
  ℕ, ◌+◌, Bool, true, false, Option, none, some, List, [], ◌∷◌, ◌++◌, String, String-discrete,
  ℕ_discrete, ltb, if◌then◌else◌, length, drop,
}
use graphify_daemon_portfoli.Prelude.Dict.{Dict, lookup, put, remove}

-- `CacheKey`
pub record CacheKey : Type 0 where
  pub version : ℕ
  pub question : String
  pub mode : String
  pub depth : ℕ
  pub token_budget : ℕ
  pub context_filters : Option (List String)

pub CacheKey-discrete : Discrete CacheKey
CacheKey-discrete = hlevel (ℕ_discrete, String-discrete)

abbrev pub default_lru_size : ℕ
default_lru_size = 512

-- A hit rate `hits / total`; a total of 0 stands for the rate 0.0.
pub record Rate : Type 0 where
  pub hits : ℕ
  pub total : ℕ

pub record QueryCache (K V : Type 0) : Type 0 where
  pub maxsize : ℕ
  pub entries : Dict K V
  pub hits : ℕ
  pub misses : ℕ

module _ {K V : Type 0} (dec : Discrete K) where
  -- `OrderedDict.move_to_end(key)`, for a key that is there
  unfoldable pub move_to_end : K → Dict K V → Dict K V
  move_to_end k d = elim (lookup dec k d) [ none ↦ d | some v ↦ remove dec k d ++ (k, v) ∷ [] ]

  unfoldable pub init : ℕ → QueryCache K V
  init maxsize = record { maxsize = maxsize; entries = []; hits = 0; misses = 0 }

  unfoldable pub hit_rate : QueryCache K V → Rate
  hit_rate c = record { hits = c.hits; total = c.hits + c.misses }

  unfoldable pub get : K → QueryCache K V → Option V × QueryCache K V
  unfolding move_to_end
  get k c = elim (lookup dec k c.entries) [
    | none ↦ (none, record c { misses = c.misses + 1 })
    | some v ↦ (some v, record c { hits = c.hits + 1; entries = move_to_end k c.entries })
  ]

  -- `popitem(last=False)` drops the head.
  unfoldable pub set : K → V → QueryCache K V → QueryCache K V
  unfolding move_to_end
  set k v c =
      let entries = move_to_end k (put dec k v c.entries) in
      record c { entries = if ltb c.maxsize (length entries) then drop 1 entries else entries }
