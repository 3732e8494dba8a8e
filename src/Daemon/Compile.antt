-- ===== src/Daemon/Compile.antt =====
-- daemon.py: what a compilation that returns has published.
use graphify_daemon_portfoli.Prelude.{◌≡◌, refl, arith, false, some, length}
use graphify_daemon_portfoli.Prelude.Exec.{Result, ok, raise}
use graphify_daemon_portfoli.Vault.FileSystem.{FileSystem}
use graphify_daemon_portfoli.Vault.Batching.{Batch}
use graphify_daemon_portfoli.Graphify.{Graphify}
use graphify_daemon_portfoli.Compiler.Clustering.{Schedule}
use graphify_daemon_portfoli.Compiler.Snapshot.{GraphSnapshot, build_graph, publish}
use graphify_daemon_portfoli.Compiler.SlowCadence.{should_trigger, record_batch}
use graphify_daemon_portfoli.Lifecycle.Cadence.{run_slow_cadence_cycle}
use graphify_daemon_portfoli.Daemon.{
  Moment, Daemon, served_communities, extract_step, sync_step, publish_step, cadence_step,
  compile_batch,
}

module _ (g : Graphify) (fs : FileSystem) (schedule : Schedule) (m : Moment) where
  -- The extraction and the index do not touch what the others read.
  extract_keeps :
      (batch : Batch) (d : Daemon g)
      → let d' = (extract_step g fs batch d).1 in
        (d'.holder ≡ d.holder) × (d'.disk ≡ d.disk) × (d'.tracker ≡ d.tracker)
  unfolding extract_step
  extract_keeps batch d = (refl, refl, refl)

  sync_keeps :
      (batch : Batch) (d : Daemon g)
      → let d' = (sync_step g fs batch d).1 in
        (d'.holder ≡ d.holder) × (d'.disk ≡ d.disk) × (d'.tracker ≡ d.tracker)
  unfolding sync_step
  sync_keeps batch d = (refl, refl, refl)

  publish_lem :
      (d : Daemon g)
      → (publish_step g fs d).0 ≡ ok tt
      → let d' = (publish_step g fs d).1 in
        ((s : GraphSnapshot g) × (d'.holder.current ≡ some s)
          × (s.version ≡ d.holder.next_version)
          × (s.community_map ≡ served_communities g d.holder.current))
        × (d'.disk ≡ d.disk)
        × (d'.tracker ≡ d.tracker)
  unfolding publish_step publish
  publish_lem d h = from (build_graph g d.cache) refl
    where
      from :
          (r : Result g.Graph)
          → build_graph g d.cache ≡ r
          → let d' = (publish_step g fs d).1 in
            ((s : GraphSnapshot g) × (d'.holder.current ≡ some s)
              × (s.version ≡ d.holder.next_version)
              × (s.community_map ≡ served_communities g d.holder.current))
            × (d'.disk ≡ d.disk)
            × (d'.tracker ≡ d.tracker)
      from (raise e) q = absurd (ground arith)
      from (ok graph) q = (
        (
          (publish g graph (served_communities g d.holder.current) d.holder).0,
          ground (arith, q),
          refl,
          refl,
        ),
        ground (arith, q),
        ground (arith, q),
      )

  cadence_quiet :
      (batch : Batch) (d : Daemon g)
      → should_trigger m.asked (record_batch (length batch.changes) m.recorded d.tracker) ≡ false
      → let d' = cadence_step g fs schedule m batch d in (d'.holder ≡ d.holder) × (d'.disk ≡ d.disk)
  unfolding cadence_step run_slow_cadence_cycle
  cadence_quiet batch d h = ground (arith, h)

  -- The state in which a compilation comes to the slow cadence.
  abbrev published : Batch → Daemon g → Result (Unit {0}) × Daemon g
  published batch d = publish_step g fs (sync_step g fs batch (extract_step g fs batch d).1).1

  compile_parts :
      (batch : Batch) (d : Daemon g)
      → (compile_batch g fs schedule m batch d).0 ≡ ok tt
      → ((published batch d).0 ≡ ok tt)
        × ((compile_batch g fs schedule m batch d).1
            ≡ cadence_step g fs schedule m batch (published batch d).1)
  unfolding compile_batch
  compile_parts batch d h =
      from (extract_step g fs batch d).0 refl (sync_step g fs batch (extract_step g fs batch d).1).0
        refl (published batch d).0 refl
    where
      from :
          (x : Result (Unit {0}))
          → (extract_step g fs batch d).0 ≡ x
          → (y : Result (Unit {0})) → (sync_step g fs batch (extract_step g fs batch d).1).0 ≡ y
          → (z : Result (Unit {0})) → (published batch d).0 ≡ z
          → ((published batch d).0 ≡ ok tt)
            × ((compile_batch g fs schedule m batch d).1
                ≡ cadence_step g fs schedule m batch (published batch d).1)
      from (raise e) p y q z r = absurd (ground (arith, p))
      from (ok u) p (raise e) q z r = absurd (ground (arith, p, q))
      from (ok u) p (ok v) q (raise e) r = absurd (ground (arith, p, q, r))
      from (ok u) p (ok v) q (ok w) r = (r, ground (arith, p, q, r))

  -- A compilation that returns, when the slow cadence is not due afterwards, serves a snapshot with the
  -- next version and the communities that were served before, and leaves the disk as it was.
  pub compile_publishes :
      (batch : Batch) (d : Daemon g)
      → (compile_batch g fs schedule m batch d).0 ≡ ok tt
      → should_trigger m.asked (record_batch (length batch.changes) m.recorded d.tracker) ≡ false
      → let d' = (compile_batch g fs schedule m batch d).1 in
        ((s : GraphSnapshot g) × (d'.holder.current ≡ some s)
          × (s.version ≡ d.holder.next_version)
          × (s.community_map ≡ served_communities g d.holder.current))
        × (d'.disk ≡ d.disk)
  compile_publishes batch d h quiet =
      let parts = compile_parts batch d h in
      let e = extract_keeps batch d in
      let y = sync_keeps batch (extract_step g fs batch d).1 in
      let (snapshot, disk, tracker) =
        publish_lem (sync_step g fs batch (extract_step g fs batch d).1).1 parts.0 in
      let q = cadence_quiet batch (published batch d).1 (ground (arith, tracker, y, e, quiet)) in
      (
        (
          snapshot.0,
          ground (arith, parts.1, q, snapshot.1),
          ground (arith, snapshot.2, y, e),
          ground (arith, snapshot.3, y, e),
        ),
        ground (arith, parts.1, q, disk, y, e),
      )
