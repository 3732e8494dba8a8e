-- ===== src/Daemon/Threads/Persisted.antt =====
-- daemon.py and shutdown.py: what a shutdown persists, among the threads.
use graphify_daemon_portfoli.Prelude.{◌+◌, ◌≡◌, refl, ap, ◌∙◌, arith, Bool, some, []}
use graphify_daemon_portfoli.Vault.Batching.{FileChange}
use graphify_daemon_portfoli.Vault.Batching.Watcher.Delivery.{changes_of}
use graphify_daemon_portfoli.Graphify.{Graphify}
use graphify_daemon_portfoli.Lifecycle.Artifacts.{save_cache}
use graphify_daemon_portfoli.Lifecycle.Cadence.{content_of}
use graphify_daemon_portfoli.Daemon.{Daemon, persist_on_shutdown}
use graphify_daemon_portfoli.Daemon.Threads.{
  Owner, Stage, System, Reach, begin, IsFresh, after_persist,
}
use graphify_daemon_portfoli.Daemon.Threads.Places.{IsPlaced, place}
use graphify_daemon_portfoli.Daemon.Threads.Places.Reached.{begin-IsPlaced, Reach-IsPlaced}
use graphify_daemon_portfoli.Daemon.Threads.Accounting.{accounted}
use graphify_daemon_portfoli.Daemon.Threads.Accounting.Tally.{tally, compiled_of}
use graphify_daemon_portfoli.Daemon.Threads.Serial.{replay, serial_persisting}
use graphify_daemon_portfoli.Daemon.Threads.Settling.Rest.{persisting_place}

module _ (g : Graphify) where
  saved_cache :
      (d : Daemon g) → content_of g (persist_on_shutdown g d).disk.graph_cache_json ≡ some d.cache
  unfolding persist_on_shutdown save_cache
  saved_cache d = refl

  closed_rows :
      (d : Daemon g) → (persist_on_shutdown g d).vault_index_conn.files ≡ d.vault_index_conn.files
  unfolding persist_on_shutdown
  closed_rows d = refl

  emptied :
      (s : System g) → IsPlaced g s → s.stage ≡ Stage.in_persist → s.daemon.watcher.pending ≡ []
  unfolding place
  emptied s i st = i.emptied (ground (arith, st))

  nothing_left :
      (p : FileChange → Bool) (d : Daemon g) (s : System g)
      → IsFresh g d
      → Reach g (begin g d) s
      → s.owner ≡ Owner.persisting
      → s.stage ≡ Stage.in_persist
      → s.daemon.watcher.pending ≡ []
      → tally p s.accepted ≡ tally p (compiled_of s.history) + tally p (changes_of s.in_hand)
  unfolding tally
  nothing_left p d s f r o st e = ground (arith, accounted g p d s f r, o, st, e)

  -- However the threads interleave from a running daemon whose watcher has seen nothing: what a shutdown
  -- that holds the lock to persist writes to graph_cache.json and leaves in the index of files is what
  -- the bodies that ran under the lock make of the daemon, each as a whole, one after another; and as
  -- many accepted changes satisfy a test as there are in the batches compiled by then and in those that
  -- flushes have in hand.
  pub persists_compiled :
      (d : Daemon g) (s : System g)
      → IsFresh g d
      → Reach g (begin g d) s
      → s.owner ≡ Owner.persisting
      → (content_of g (after_persist g s).daemon.disk.graph_cache_json
          ≡ some (replay g s.history d).cache)
        × ((after_persist g s).daemon.vault_index_conn.files
            ≡ (replay g s.history d).vault_index_conn.files)
        × ((p : FileChange → Bool)
            → tally p s.accepted ≡ tally p (compiled_of s.history) + tally p (changes_of s.in_hand))
  persists_compiled d s f r o =
      let i = Reach-IsPlaced g r (begin-IsPlaced g d f) in
      let st = persisting_place g s i o in
      let same = serial_persisting g d s r o in
      (
        saved_cache s.daemon ∙ ap (λ x. some x.cache) same,
        closed_rows s.daemon ∙ ap (λ x. x.vault_index_conn.files) same,
        λ p. nothing_left p d s f r o st (emptied s i st),
      )
