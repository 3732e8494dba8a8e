-- ===== src/Query/Cache/History.antt =====
-- graph_query_api/query_cache.py against an ideal history that forgets nothing: what the cache
-- holds after any calls, and which value a `get` can return.
use graphify_daemon_portfoli.Prelude.{
  ℕ, zero, suc, ◌+◌, ◌<◌, ◌≡◌, refl, sym, ap, ◌∙◌, arith, Option, none, some, List, [], ◌∷◌, ite,
  inl, inr, Option-cases,
}
use graphify_daemon_portfoli.Prelude.Dict.{
  Dict, lookup, remove, Unique, lookup-remove, lookup-append_none,
}
use graphify_daemon_portfoli.Query.Cache.{QueryCache, init, get, set}
use graphify_daemon_portfoli.Prelude.Window.{
  last, last-remove-last, last-append, lookup-last, lookup-last-none, last_zero,
}
use graphify_daemon_portfoli.Query.Cache.Laws.{
  IsValid, touch, touch-Unique, lookup-touch, entries-set, entries-get_hit, entries-get_miss,
  get-lookup, maxsize-get, maxsize-set, get-IsValid, set-IsValid, counts-get, counts-set,
}

pub data Call (K V : Type 0) : Type 0 where
  get_call : K → Call K V
  set_call : K → V → Call K V

module _ {K V : Type 0} (dec : Discrete K) where
  -- The cache after some calls.
  unfoldable pub run : List (Call K V) → QueryCache K V → QueryCache K V
  run [] c = c
  run (get_call k ∷ calls) c = run calls (get dec k c).1
  run (set_call k v ∷ calls) c = run calls (set dec k v c)

  -- The value that was last set under a key.
  unfoldable pub last_set : K → Option V → List (Call K V) → Option V
  last_set k o [] = o
  last_set k o (get_call j ∷ calls) = last_set k o calls
  last_set k o (set_call j v ∷ calls) = last_set k (ite (dec j k) (some v) o) calls

  -- The ideal history: every key ever set, the least recently used first. A `get` is a use if it
  -- finds its key among the last `n` entries.
  unfoldable pub history : ℕ → Dict K V → List (Call K V) → Dict K V
  history n h [] = h
  history n h (get_call k ∷ calls) =
      history n (elim (lookup dec k (last n h)) [ none ↦ h | some v ↦ touch dec k v h ]) calls
  history n h (set_call k v ∷ calls) = history n (touch dec k v h) calls

  -- Keeping the window first changes nothing in the window after a touch.
  last-touch-last :
      (n : ℕ) (k : K) (v : V) (h : Dict K V)
      → Unique dec h
      → last n (touch dec k v (last n h)) ≡ last n (touch dec k v h)
  last-touch-last zero k v h u = rw (last_zero, last_zero)
  last-touch-last (suc n) k v h u = rw (last-append, last-append, last-remove-last dec n k h u)

  pub record Tracks (n : ℕ) (c : QueryCache K V) (h : Dict K V) : Type 0 where
    pub valid : IsValid dec c
    pub size : c.maxsize ≡ n
    pub window : c.entries ≡ last n h
    pub unique : Unique dec h

  Tracks-set :
      (n : ℕ) (k : K) (v : V) {c : QueryCache K V} {h : Dict K V}
      → Tracks n c h
      → Tracks n (set dec k v c) (touch dec k v h)
  Tracks-set n k v {c} {h} t = record {
    valid = set-IsValid dec k v t.valid;
    size = maxsize-set dec k v c ∙ t.size;
    window = ground (
      arith,
      t.valid.bounded,
      entries-set dec k v c,
      last-touch-last n k v h,
      t.size,
      t.window,
      t.unique,
    );
    unique = touch-Unique dec k v h t.unique;
  }

  Tracks-get :
      (n : ℕ) (k : K) {c : QueryCache K V} {h : Dict K V}
      → Tracks n c h
      → Tracks n
          (get dec k c).1
          (elim (lookup dec k (last n h)) [ none ↦ h | some v ↦ touch dec k v h ])
  Tracks-get n k {c} {h} t = elim (Option-cases (lookup dec k (last n h))) [
    | inl miss ↦ rw miss (record {
      valid = get-IsValid dec k t.valid;
      size = maxsize-get dec k c ∙ t.size;
      window = ground (arith, entries-get_miss dec k c, t.window);
      unique = t.unique;
    })
    | inr (v, hit) ↦ rw hit (record {
      valid = get-IsValid dec k t.valid;
      size = maxsize-get dec k c ∙ t.size;
      window = ground (
        arith,
        t.valid.bounded,
        entries-get_hit dec k v c,
        last-touch-last n k v h,
        t.size,
        t.window,
        t.unique,
      );
      unique = touch-Unique dec k v h t.unique;
    })
  ]

  run-Tracks_lem :
      (n : ℕ) (calls : List (Call K V)) {c : QueryCache K V} {h : Dict K V}
      → Tracks n c h
      → Tracks n (run calls c) (history n h calls)
  unfolding run history
  run-Tracks_lem n [] t = t
  run-Tracks_lem n (get_call k ∷ calls) t = run-Tracks_lem n calls (Tracks-get n k t)
  run-Tracks_lem n (set_call k v ∷ calls) t = run-Tracks_lem n calls (Tracks-set n k v t)

  init-Tracks : (n : ℕ) → Tracks n (init dec n) []
  unfolding init last
  init-Tracks n = record {
    valid = record { bounded = omega arith; distinct = tt };
    size = refl;
    window = refl;
    unique = tt;
  }

  -- After any calls on a new cache, it holds exactly the `maxsize` most recently used entries of the
  -- history, in order of use, each key once: what `set` evicts is always the least recently used.
  pub run-Tracks :
      (n : ℕ) (calls : List (Call K V)) → Tracks n (run calls (init dec n)) (history n [] calls)
  run-Tracks n calls = run-Tracks_lem n calls (init-Tracks n)

  lookup-history :
      (n : ℕ) (k : K) (h : Dict K V) (calls : List (Call K V))
      → Unique dec h
      → lookup dec k (history n h calls) ≡ last_set k (lookup dec k h) calls
  unfolding history last_set
  lookup-history n k h [] u = refl
  lookup-history n k h (set_call j v ∷ calls) u =
      lookup-history n k (touch dec j v h) calls (touch-Unique dec j v h u)
      ∙ ap (λ o. last_set k o calls) (lookup-touch dec j k v h)
  lookup-history n k h (get_call j ∷ calls) u = elim (Option-cases (lookup dec j (last n h))) [
    | inl miss ↦ rw miss (lookup-history n k h calls u)
    | inr (v, hit) ↦ rw hit (
        lookup-history n k (touch dec j v h) calls (touch-Unique dec j v h u)
        ∙ ap (λ o. last_set k o calls)
            (ground (arith, lookup-touch dec j k v h, lookup-last dec n j h v)))
  ]

  -- What a `get` returns after any calls on a new cache is the value that was last set under exactly
  -- that key.
  get_sound :
      (n : ℕ) (calls : List (Call K V)) (k : K) (v : V)
      → (get dec k (run calls (init dec n))).0 ≡ some v
      → last_set k none calls ≡ some v
  unfolding lookup
  get_sound n calls k v h =
      sym (lookup-history n k [] calls tt)
      ∙ lookup-last dec n k (history n [] calls) v t.unique
          (ap (lookup dec k) (sym t.window) ∙ sym (get-lookup dec k (run calls (init dec n))) ∙ h)
    where
      t : Tracks n (run calls (init dec n)) (history n [] calls)
      t = run-Tracks n calls

  -- Right after a `set`, a `get` of the same key returns the value, if the cache has room for
  -- at least one entry.
  get-set_self :
      (n : ℕ) (calls : List (Call K V)) (k : K) (v : V)
      → 0 < n
      → (get dec k (set dec k v (run calls (init dec n)))).0 ≡ some v
  unfolding lookup
  get-set_self zero calls k v h = absurd (omega arith)
  get-set_self (suc n) calls k v h =
      get-lookup dec k (set dec k v c)
      ∙ ap (lookup dec k) (entries-set dec k v c t.valid.bounded)
      ∙ rw (t.size, last-append)
          (ground (
            arith,
            lookup-remove dec k k c.entries,
            lookup-last-none dec n k (remove dec k c.entries),
            lookup-append_none dec k (last n (remove dec k c.entries)) ((k, v) ∷ []),
          ))
    where
      c : QueryCache K V
      c = run calls (init dec (suc n))

      t : Tracks (suc n) c (history (suc n) [] calls)
      t = run-Tracks (suc n) calls

  -- How many calls are `get`s.
  unfoldable pub gets : List (Call K V) → ℕ
  gets [] = 0
  gets (get_call k ∷ calls) = suc (gets calls)
  gets (set_call k v ∷ calls) = gets calls

  -- Over any calls, the hits and misses together grow by the number of `get`s.
  hits_and_misses :
      (calls : List (Call K V)) (c : QueryCache K V)
      → (run calls c).hits + (run calls c).misses ≡ c.hits + c.misses + gets calls
  unfolding run gets
  hits_and_misses [] c = omega arith
  hits_and_misses (set_call k v ∷ calls) c =
      omega (arith, hits_and_misses calls (set dec k v c), counts-set dec k v c)
  hits_and_misses (get_call k ∷ calls) c =
      omega (arith, hits_and_misses calls (get dec k c).1, counts-get dec k c)
