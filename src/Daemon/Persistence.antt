-- ===== src/Daemon/Persistence.antt =====
-- daemon.py and lifecycle/shutdown.py: what a shutdown leaves on disk, and what is lost after it.
use graphify_daemon_portfoli.Prelude.{◌≡◌, refl, ap, ◌∙◌, subst, arith, false, Option, some}
use graphify_daemon_portfoli.Prelude.Exec.{Error, Result, ok, raise, ◌>>◌, database_error}
use graphify_daemon_portfoli.Vault.FileSystem.{FileSystem}
use graphify_daemon_portfoli.Vault.Batching.{Batch}
use graphify_daemon_portfoli.Graphify.{Graphify}
use graphify_daemon_portfoli.Compiler.Clustering.{Schedule}
use graphify_daemon_portfoli.Lifecycle.VaultIndex.{sync_batch}
use graphify_daemon_portfoli.Lifecycle.Artifacts.{save_cache}
use graphify_daemon_portfoli.Lifecycle.Cadence.{content_of}
use graphify_daemon_portfoli.Daemon.{
  DaemonState, Moment, Daemon, extract_step, sync_step, publish_step, compile_batch,
  persist_on_shutdown, finish_shutdown, compile_pending, shutdown,
}
use graphify_daemon_portfoli.Daemon.Lifecycle.{
  drained, closing, last_compilation, shutdown_ok, shutdown_raise, shutdown_twice,
}

module _ (g : Graphify) (fs : FileSystem) (schedule : Schedule) (m : Moment) where
  -- After a shutdown that returns from RUNNING the daemon is STOPPED, its database is closed, the
  -- extraction cache on disk is the one that the last compilation left, and so is the served snapshot.
  pub shutdown_persists :
      (d : Daemon g)
      → d.state ≡ DaemonState.running
      → (shutdown g fs schedule m d).0 ≡ ok tt
      → let final = (shutdown g fs schedule m d).1 in
        let compiled = (compile_pending g fs schedule m (drained g d) (closing g d)).1 in
        (final.state ≡ DaemonState.stopped)
        × (final.vault_index_conn.is_open ≡ false)
        × (content_of g final.disk.graph_cache_json ≡ some compiled.cache)
        × (final.holder ≡ compiled.holder)
  unfolding finish_shutdown persist_on_shutdown save_cache
  shutdown_persists d h done = from (last_compilation g fs schedule m d).0 refl
    where
      from :
          (r : Result (Unit {0}))
          → (last_compilation g fs schedule m d).0 ≡ r
          → let final = (shutdown g fs schedule m d).1 in
            let compiled = (last_compilation g fs schedule m d).1 in
            (final.state ≡ DaemonState.stopped)
            × (final.vault_index_conn.is_open ≡ false)
            × (content_of g final.disk.graph_cache_json ≡ some compiled.cache)
            × (final.holder ≡ compiled.holder)
      from (ok tt) e = ground (arith, shutdown_ok g fs schedule m d h e)
      from (raise x) e = absurd (ground (arith, shutdown_raise g fs schedule m d x h e, done))

  -- A compilation up to the publication of its snapshot, before the tracker and the cycle.
  abbrev pub compile_and_publish : Batch → Daemon g → Result (Unit {0}) × Daemon g
  compile_and_publish batch = do extract_step g fs batch; sync_step g fs batch; publish_step g fs

  compile-raise :
      (batch : Batch) (d : Daemon g) (e : Error)
      → (compile_and_publish batch d).0 ≡ raise e
      → compile_batch g fs schedule m batch d ≡ (raise e, (compile_and_publish batch d).1)
  unfolding compile_batch
  compile-raise batch d e h = ground (arith, h)

  pending-raise :
      (pending : Option Batch) (batch : Batch) (d : Daemon g) (e : Error)
      → pending ≡ some batch
      → (compile_and_publish batch d).0 ≡ raise e
      → compile_pending g fs schedule m pending d ≡ (raise e, (compile_and_publish batch d).1)
  unfolding compile_pending
  pending-raise pending batch d e some_batch h = rw some_batch (compile-raise batch d e h)

  disk-compile_and_publish :
      (batch : Batch) (d : Daemon g) → (compile_and_publish batch d).1.disk ≡ d.disk
  unfolding extract_step sync_step publish_step
  disk-compile_and_publish batch d = ground arith

  state-compile_and_publish :
      (batch : Batch) (d : Daemon g) → (compile_and_publish batch d).1.state ≡ d.state
  unfolding extract_step sync_step publish_step
  state-compile_and_publish batch d = ground arith

  is_open-compile_and_publish :
      (batch : Batch) (d : Daemon g)
      → (compile_and_publish batch d).1.vault_index_conn.is_open ≡ d.vault_index_conn.is_open
  unfolding extract_step sync_step publish_step sync_batch
  is_open-compile_and_publish batch d = ground arith

  -- If the compilation of the batch that a shutdown from RUNNING drains raises before it has published its
  -- snapshot, that is in extract_batch, sync_batch or build_graph, the shutdown raises the same and leaves
  -- the daemon as the compilation left it: STOPPING, with the disk and the open or closed state of the
  -- database as they were; another shutdown returns and changes nothing.
  pub failed_shutdown_never_persists :
      (d : Daemon g) (batch : Batch) (e : Error)
      → d.state ≡ DaemonState.running
      → drained g d ≡ some batch
      → (compile_and_publish batch (closing g d)).0 ≡ raise e
      → let final = (compile_and_publish batch (closing g d)).1 in
        (shutdown g fs schedule m d ≡ (raise e, final))
        × (final.state ≡ DaemonState.stopping)
        × (final.disk ≡ d.disk)
        × (final.vault_index_conn.is_open ≡ d.vault_index_conn.is_open)
        × (shutdown g fs schedule m final ≡ (ok tt, final))
  failed_shutdown_never_persists d batch e h taken p =
      let same = pending-raise (drained g d) batch (closing g d) e taken p in
      let ended =
        shutdown_raise g fs schedule m d e h (ap (λ x. x.0) same) ∙ ap (λ x. (raise e, x.1)) same in
      (
        ended,
        state-compile_and_publish batch (closing g d),
        disk-compile_and_publish batch (closing g d),
        is_open-compile_and_publish batch (closing g d),
        subst (λ z. shutdown g fs schedule m z ≡ (ok tt, z)) (ap (λ x. x.1) ended)
            (shutdown_twice g fs schedule m d),
      )

  -- The three parts of the daemon that others see are the same in two states.
  abbrev pub Keeps : Daemon g → Daemon g → Type 0
  Keeps a b = (a.holder ≡ b.holder) × (a.disk ≡ b.disk) × (a.vault_index_conn ≡ b.vault_index_conn)

  extract-Keeps : (batch : Batch) (d : Daemon g) → Keeps (extract_step g fs batch d).1 d
  unfolding extract_step
  extract-Keeps batch d = (refl, refl, refl)

  sync-closed :
      (batch : Batch) (d : Daemon g)
      → d.vault_index_conn.is_open ≡ false
      → sync_step g fs batch d ≡ (raise database_error, d)
  unfolding sync_step sync_batch
  sync-closed batch d h = ground (arith, h)

  -- On a closed database a compilation raises, and the snapshot, the disk and the database stay.
  compile-closed :
      (batch : Batch) (d : Daemon g)
      → d.vault_index_conn.is_open ≡ false
      → let r = compile_batch g fs schedule m batch d in (e : Error) × (r.0 ≡ raise e) × Keeps r.1 d
  unfolding compile_batch
  compile-closed batch d h = from (extract_step g fs batch d).0 refl
    where
      then_closed :
          sync_step g fs batch (extract_step g fs batch d).1
          ≡ (raise database_error, (extract_step g fs batch d).1)
      then_closed =
          sync-closed batch (extract_step g fs batch d).1
            (ap (λ c. c.is_open) (extract-Keeps batch d).2 ∙ h)

      from :
          (x : Result (Unit {0}))
          → (extract_step g fs batch d).0 ≡ x
          → let r = compile_batch g fs schedule m batch d in
            (e : Error) × (r.0 ≡ raise e) × Keeps r.1 d
      from (raise e) p = (e, ground (arith, p), ground (arith, p, extract-Keeps batch d))
      from (ok tt) p = (
        database_error,
        ground (arith, p, then_closed),
        ground (arith, p, then_closed, extract-Keeps batch d),
      )

  -- After a shutdown that returned from RUNNING, a batch that reaches `_compile_batch` raises, and the
  -- snapshot, the disk and the database stay as the shutdown left them.
  pub compile_after_shutdown_raises :
      (d : Daemon g) (batch : Batch)
      → d.state ≡ DaemonState.running
      → (shutdown g fs schedule m d).0 ≡ ok tt
      → let final = (shutdown g fs schedule m d).1 in
        let r = compile_batch g fs schedule m batch final in
        (e : Error) × (r.0 ≡ raise e) × Keeps r.1 final
  compile_after_shutdown_raises d batch h done =
      compile-closed batch (shutdown g fs schedule m d).1 ((shutdown_persists d h done).1)
