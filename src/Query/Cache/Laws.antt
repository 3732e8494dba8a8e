-- ===== src/Query/Cache/Laws.antt =====
-- The methods of graph_query_api/query_cache.py, in terms of moving a key to the end and keeping a
-- window of the last entries.
use graphify_daemon_portfoli.Prelude.{
  ◌+◌, ◌≤◌, ◌≡◌, refl, sym, ◌⊎◌, ite, arith, none, some, [], ◌∷◌, ◌++◌, length, length-append, inl,
  inr, Option-cases,
}
use graphify_daemon_portfoli.Prelude.Dict.{
  Dict, lookup, put, remove, Unique, lookup-put, lookup-remove, remove-put, remove-Unique,
  append-Unique, length-remove, length-remove_present, lookup-append_none, lookup-append,
}
use graphify_daemon_portfoli.Query.Cache.{QueryCache, get, set, move_to_end}
use graphify_daemon_portfoli.Prelude.Window.{
  last, length-last-le, last_all, last-drop, last-Unique, lookup-last,
}

module _ {K V : Type 0} (dec : Discrete K) where
  -- The key becomes the most recent one, with a value.
  abbrev pub touch : K → V → Dict K V → Dict K V
  touch k v d = remove dec k d ++ (k, v) ∷ []

  pub record IsValid (c : QueryCache K V) : Type 0 where
    pub bounded : length c.entries ≤ c.maxsize
    pub distinct : Unique dec c.entries

  pub touch-Unique : (k : K) (v : V) (d : Dict K V) → Unique dec d → Unique dec (touch k v d)
  touch-Unique k v d u =
      append-Unique dec k v (remove dec k d) (remove-Unique dec k d u)
        (ground (arith, lookup-remove dec k k d))

  pub lookup-touch_self : (k : K) (v : V) (d : Dict K V) → lookup dec k (touch k v d) ≡ some v
  unfolding lookup
  lookup-touch_self k v d =
      ground
        (arith, lookup-remove dec k k d, lookup-append_none dec k (remove dec k d) ((k, v) ∷ []))

  length-touch-le : (k : K) (v : V) (d : Dict K V) → length (touch k v d) ≤ length d + 1
  length-touch-le k v d =
      omega (arith, length-remove dec k d, length-append (remove dec k d) ((k, v) ∷ []))

  length-touch_present :
      (k : K) (v w : V) (d : Dict K V) → lookup dec k d ≡ some w → length (touch k v d) ≤ length d
  length-touch_present k v w d h =
      omega (arith, length-remove_present dec k d w h, length-append (remove dec k d) ((k, v) ∷ []))

  move-put : (k : K) (v : V) (d : Dict K V) → move_to_end dec k (put dec k v d) ≡ touch k v d
  unfolding move_to_end
  move-put k v d = ground (arith, lookup-put dec k k v d, remove-put dec k v d)

  -- `set` keeps the window of the touched entries.
  pub entries-set :
      (k : K) (v : V) (c : QueryCache K V)
      → length c.entries ≤ c.maxsize
      → (set dec k v c).entries ≡ last c.maxsize (touch k v c.entries)
  unfolding set
  entries-set k v c h = ground (
    arith,
    move-put k v c.entries,
    length-touch-le k v c.entries,
    last-drop c.maxsize (touch k v c.entries),
    last_all c.maxsize (touch k v c.entries),
  )

  pub entries-get_hit :
      (k : K) (v : V) (c : QueryCache K V)
      → length c.entries ≤ c.maxsize
      → lookup dec k c.entries ≡ some v
      → (get dec k c).1.entries ≡ last c.maxsize (touch k v c.entries)
  unfolding get move_to_end
  entries-get_hit k v c h found =
      ground (arith, length-touch_present k v v c.entries, last_all c.maxsize (touch k v c.entries))

  pub entries-get_miss :
      (k : K) (c : QueryCache K V)
      → lookup dec k c.entries ≡ none
      → (get dec k c).1.entries ≡ c.entries
  unfolding get
  entries-get_miss k c h = ground arith

  -- A `get` returns what stands in the entries.
  pub get-lookup : (k : K) (c : QueryCache K V) → (get dec k c).0 ≡ lookup dec k c.entries
  unfolding get
  get-lookup k c = ground arith

  pub maxsize-get : (k : K) (c : QueryCache K V) → (get dec k c).1.maxsize ≡ c.maxsize
  unfolding get
  maxsize-get k c = ground arith

  pub maxsize-set : (k : K) (v : V) (c : QueryCache K V) → (set dec k v c).maxsize ≡ c.maxsize
  unfolding set
  maxsize-set k v c = refl

  pub set-IsValid : (k : K) (v : V) {c : QueryCache K V} → IsValid c → IsValid (set dec k v c)
  set-IsValid k v {c} h = record {
    bounded = ground (
      arith,
      entries-set k v c,
      maxsize-set k v c,
      length-last-le c.maxsize (touch k v c.entries),
    );
    distinct = ground (
      arith,
      entries-set k v c,
      last-Unique dec c.maxsize (touch k v c.entries),
      touch-Unique k v c.entries,
    );
  }

  pub get-IsValid : (k : K) {c : QueryCache K V} → IsValid c → IsValid (get dec k c).1
  get-IsValid k {c} h = elim (Option-cases (lookup dec k c.entries)) [
    | inl miss ↦ record {
      bounded = ground (arith, h.bounded, entries-get_miss k c, maxsize-get k c);
      distinct = rw (entries-get_miss k c miss) h.distinct;
    }
    | inr (v, hit) ↦ record {
      bounded =
          rw (entries-get_hit k v c h.bounded hit, maxsize-get)
            (length-last-le c.maxsize (touch k v c.entries));
      distinct =
          rw (entries-get_hit k v c h.bounded hit) (
            last-Unique dec c.maxsize (touch k v c.entries)
              (touch-Unique k v c.entries h.distinct));
    }
  ]

  pub counts-get :
      (k : K) (c : QueryCache K V)
      → (get dec k c).1.hits + (get dec k c).1.misses ≡ c.hits + c.misses + 1
  unfolding get
  counts-get k c = ground arith

  pub counts-set :
      (k : K) (v : V) (c : QueryCache K V)
      → (set dec k v c).hits + (set dec k v c).misses ≡ c.hits + c.misses
  unfolding set
  counts-set k v c = refl

  -- The value under `j` after a touch of `k`.
  pub lookup-touch :
      (k j : K) (v : V) (d : Dict K V)
      → lookup dec j (touch k v d) ≡ ite (dec k j) (some v) (lookup dec j d)
  unfolding lookup
  lookup-touch k j v d = elim (Option-cases (lookup dec j (remove dec k d))) [
    | inl gone ↦
        ground
          (arith, lookup-remove dec k j d, lookup-append_none dec j (remove dec k d) ((k, v) ∷ []))
    | inr (w, there) ↦
        ground
          (arith, lookup-remove dec k j d, lookup-append dec j (remove dec k d) ((k, v) ∷ []) w)
  ]

  -- What a cache holds after a `get`, it held before.
  pub lookup-get :
      (k j : K) (u : V) (c : QueryCache K V)
      → IsValid c
      → lookup dec j (get dec k c).1.entries ≡ some u
      → lookup dec j c.entries ≡ some u
  lookup-get k j u c valid h = elim (Option-cases (lookup dec k c.entries)) [
    | inl miss ↦ rw (sym (entries-get_miss k c miss)) h
    | inr (v, hit) ↦ ground (
      arith,
      lookup-touch k j v c.entries,
      lookup-last dec c.maxsize j (touch k v c.entries) u
          (touch-Unique k v c.entries valid.distinct)
          (rw (sym (entries-get_hit k v c valid.bounded hit)) h),
    )
  ]

  -- What a cache holds after a `set`, it held before, or it is what was set.
  pub lookup-set :
      (k j : K) (v u : V) (c : QueryCache K V)
      → IsValid c
      → lookup dec j (set dec k v c).entries ≡ some u
      → ((k ≡ j) × (v ≡ u)) ⊎ (lookup dec j c.entries ≡ some u)
  lookup-set k j v u c valid h = ground (
    arith,
    lookup-touch k j v c.entries,
    lookup-last dec c.maxsize j (touch k v c.entries) u (touch-Unique k v c.entries valid.distinct)
        (rw (sym (entries-set k v c valid.bounded)) h),
  )
