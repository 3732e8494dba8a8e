-- ===== src/Daemon/Threads/Accounting/Tally.antt =====
-- batching.py and daemon.py: the places where a file change can be, and how they are counted.
use graphify_daemon_portfoli.Prelude.{
  ℕ, ◌+◌, ◌≡◌, refl, arith, Bool, Option, none, some, List, [], ◌∷◌, ◌++◌, if◌then◌else◌,
}
use graphify_daemon_portfoli.Vault.Batching.{FileChange, Batch}
use graphify_daemon_portfoli.Vault.Batching.Watcher.{Watcher, flush, drain_pending_batch}
use graphify_daemon_portfoli.Vault.Batching.Watcher.Delivery.{changes_of, empty_list}
use graphify_daemon_portfoli.Daemon.Threads.{Turn, Owner, Stage, Event, after_drained, handed}

-- How many of some changes satisfy a test.
unfoldable pub tally : (FileChange → Bool) → List FileChange → ℕ
tally p [] = 0
tally p (c ∷ cs) = (if p c then 1 else 0) + tally p cs

pub tally-append :
    (p : FileChange → Bool) (xs ys : List FileChange) → tally p (xs ++ ys) ≡ tally p xs + tally p ys
unfolding tally
tally-append p [] ys = omega arith
tally-append p (x ∷ xs) ys = omega (arith, tally-append p xs ys)

abbrev pub changes_in : Option Batch → List FileChange
changes_in none = []
changes_in (some b) = b.changes

-- The changes of the batches whose compilation has ended, in order.
unfoldable pub compiled_of : List Event → List FileChange
compiled_of [] = []
compiled_of (Event.compiles b t ∷ es) = b.changes ++ compiled_of es
compiled_of (Event.cycles t ∷ es) = compiled_of es
compiled_of (Event.persists ∷ es) = compiled_of es

-- The changes that the holder of the lock compiles, and those that the shutdown has drained.
abbrev pub held : Owner → List FileChange
held Owner.free = []
held Owner.persisting = []
held (Owner.cycling t) = []
held (Owner.compiling who b t p) = b.changes

abbrev pub awaited : Stage → List FileChange
awaited (Stage.drained b) = b.changes
awaited Stage.unclaimed = []
awaited Stage.claimed = []
awaited Stage.rejected = []
awaited Stage.in_batch = []
awaited Stage.compiled = []
awaited Stage.unwatched = []
awaited Stage.in_persist = []
awaited Stage.persisted = []
awaited Stage.finished = []
awaited (Stage.failed e) = []

module _ (p : FileChange → Bool) where
  pub tally-one :
      (c : FileChange) (xs : List FileChange)
      → tally p (xs ++ c ∷ []) ≡ tally p xs + tally p (c ∷ [])
  tally-one c xs = tally-append p xs (c ∷ [])

  pub tally-handed :
      (o : Option Batch) (bs : List Batch)
      → tally p (changes_of (handed o bs)) ≡ tally p (changes_of bs) + tally p (changes_in o)
  unfolding changes_of tally
  tally-handed none bs = omega arith
  tally-handed (some b) [] = omega (arith, tally-append p b.changes [])
  tally-handed (some b) (a ∷ bs) = omega (
    arith,
    tally-handed (some b) bs,
    tally-append p a.changes (changes_of bs),
    tally-append p a.changes (changes_of (bs ++ b ∷ [])),
  )

  pub tally-taken :
      (xs : List Batch) (b : Batch) (ys : List Batch)
      → tally p (changes_of (xs ++ b ∷ ys)) ≡ tally p b.changes + tally p (changes_of (xs ++ ys))
  unfolding changes_of
  tally-taken [] b ys = tally-append p b.changes (changes_of ys)
  tally-taken (x ∷ xs) b ys = omega (
    arith,
    tally-taken xs b ys,
    tally-append p x.changes (changes_of (xs ++ b ∷ ys)),
    tally-append p x.changes (changes_of (xs ++ ys)),
  )

  pub tally-compiled :
      (es : List Event) (b : Batch) (t : Turn)
      → tally p (compiled_of (es ++ Event.compiles b t ∷ []))
        ≡ tally p (compiled_of es) + tally p b.changes
  unfolding compiled_of tally
  tally-compiled [] b t = omega (arith, tally-append p b.changes [])
  tally-compiled (Event.compiles a u ∷ es) b t = omega (
    arith,
    tally-compiled es b t,
    tally-append p a.changes (compiled_of es),
    tally-append p a.changes (compiled_of (es ++ Event.compiles b t ∷ [])),
  )
  tally-compiled (Event.cycles u ∷ es) b t = tally-compiled es b t
  tally-compiled (Event.persists ∷ es) b t = tally-compiled es b t

  pub flush_moves :
      (w : Watcher)
      → tally p (changes_in (flush w).0) + tally p (flush w).1.pending ≡ tally p w.pending
  unfolding flush tally
  flush_moves w = ground (arith, empty_list w.pending)

  pub drain_moves :
      (w : Watcher)
      → tally p (awaited (after_drained (drain_pending_batch w).0))
          + tally p (drain_pending_batch w).1.pending
        ≡ tally p w.pending
  unfolding drain_pending_batch tally
  drain_moves w = ground (arith, empty_list w.pending)

pub cycle_compiles_nothing :
    (es : List Event) (t : Turn) → compiled_of (es ++ Event.cycles t ∷ []) ≡ compiled_of es
unfolding compiled_of
cycle_compiles_nothing [] t = refl
cycle_compiles_nothing (Event.compiles b u ∷ es) t = rw (cycle_compiles_nothing es t) refl
cycle_compiles_nothing (Event.cycles u ∷ es) t = cycle_compiles_nothing es t
cycle_compiles_nothing (Event.persists ∷ es) t = cycle_compiles_nothing es t

pub persist_compiles_nothing :
    (es : List Event) → compiled_of (es ++ Event.persists ∷ []) ≡ compiled_of es
unfolding compiled_of
persist_compiles_nothing [] = refl
persist_compiles_nothing (Event.compiles b u ∷ es) = rw (persist_compiles_nothing es) refl
persist_compiles_nothing (Event.cycles u ∷ es) = persist_compiles_nothing es
persist_compiles_nothing (Event.persists ∷ es) = persist_compiles_nothing es
