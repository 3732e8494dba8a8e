-- ===== src/Daemon/Restart/RoundTrip.antt =====
-- daemon.py: a daemon is shut down, and another one is made on its disk.
use graphify_daemon_portfoli.Prelude.{
  ℕ, ◌≡◌, refl, ◌⊎◌, arith, true, false, not, ◌||◌, Option, none, some, List, [], ◌∷◌, String, All,
  map,
}
use graphify_daemon_portfoli.Prelude.Exec.{ok}
use graphify_daemon_portfoli.Vault.Path.{FilePath, suffix, relative_to}
use graphify_daemon_portfoli.Vault.FileSystem.{FileSystem}
use graphify_daemon_portfoli.Vault.Exclusions.{
  contains, observed_suffixes, is_excluded, resolve_within_vault,
}
use graphify_daemon_portfoli.Graphify.{Graphify}
use graphify_daemon_portfoli.Compiler.Extraction.{ExtractionCache, State, mtime}
use graphify_daemon_portfoli.Compiler.Snapshot.{SnapshotHolder, build_graph, publish, new_holder}
use graphify_daemon_portfoli.Lifecycle.VaultIndex.{Connection}
use graphify_daemon_portfoli.Lifecycle.Artifacts.{Artifact}
use graphify_daemon_portfoli.Lifecycle.ColdStart
use graphify_daemon_portfoli.Lifecycle.ColdStart.{
  visit, walk, prune, confine, refresh, is_observed, cached_paths,
}
use graphify_daemon_portfoli.Daemon.Configuration.{Settings}
use graphify_daemon_portfoli.Daemon.{DaemonState, Moment, Daemon, compile_pending, shutdown}
use graphify_daemon_portfoli.Daemon.Lifecycle.{drained, closing}
use graphify_daemon_portfoli.Daemon.Persistence.{shutdown_persists}
use graphify_daemon_portfoli.Compiler.Clustering.{Schedule}
use graphify_daemon_portfoli.Lifecycle.Cadence.{content_of}
use graphify_daemon_portfoli.Daemon.Restart.{Loads, cache_data, load, load_cache, init, cold_start}

-- What `json.loads` gives back is the cache, whatever it was before.
load-loads :
    (loads : Loads) (x c : ExtractionCache)
    → loads c ≡ ok (cache_data c)
    → load loads c x ≡ (ok tt, c)
unfolding load
load-loads loads x c j = rw j refl

module _ (g : Graphify) where
  module _ (fs : FileSystem) (vault_root : FilePath) (nested : List String) where
    -- A path of the walk that is not a candidate, or a candidate in the vault whose recorded mtime is the
    -- one it has.
    abbrev pub IsUnchanged : ExtractionCache → FilePath → Option FilePath → Type 0
    IsUnchanged cache path none =
        ((fs.is_dir path || not (contains observed_suffixes (suffix path))) ≡ true)
        ⊎ (is_excluded path vault_root nested ≡ ok true)
    IsUnchanged cache path (some relative) =
        ((fs.is_dir path || not (contains observed_suffixes (suffix path))) ≡ false)
        × (is_excluded path vault_root nested ≡ ok false)
        × (relative_to path vault_root ≡ some relative)
        × ((real : FilePath) × (resolve_within_vault fs path vault_root ≡ ok (some real)))
        × ((t : ℕ) × (size : ℕ) × (fs.stat path ≡ ok (record { mtime = t; size = size }))
            × (mtime relative cache ≡ some t))

    abbrev seen : Option FilePath → List FilePath → List FilePath
    seen none observed = observed
    seen (some relative) observed = relative ∷ observed

    visit-unchanged :
        (path : FilePath) (o : Option FilePath) (observed : List FilePath) (s : State)
        → IsUnchanged s.cache path o
        → visit g fs vault_root nested path observed s ≡ (ok (seen o observed), s)
    unfolding visit confine refresh
    visit-unchanged path none observed s h = ground arith
    visit-unchanged path (some relative) observed s
          (is_file, included, under, (real, inside), (t, size, st, recorded)) =
        ground (arith, is_file, included, under, inside, st, recorded)

    abbrev pub all_seen : List (FilePath × Option FilePath) → List FilePath → List FilePath
    all_seen [] observed = observed
    all_seen ((path, o) ∷ paths) observed = all_seen paths (seen o observed)

    walk-unchanged :
        (paths : List (FilePath × Option FilePath)) (observed : List FilePath) (s : State)
        → All (λ p. IsUnchanged s.cache p.0 p.1) paths
        → walk g fs vault_root nested (map (λ p. p.0) paths) observed s
          ≡ (ok (all_seen paths observed), s)
    unfolding walk
    walk-unchanged [] observed s h = refl
    walk-unchanged ((path, o) ∷ paths) observed s h =
        rw (visit-unchanged path o observed s h.0) (walk-unchanged paths (seen o observed) s h.1)

    prune-observed :
        (observed ps : List FilePath) (cache : ExtractionCache)
        → All (λ p. is_observed observed p ≡ true) ps
        → prune g fs vault_root nested observed ps cache ≡ cache
    unfolding prune
    prune-observed observed [] cache h = refl
    prune-observed observed (p ∷ ps) cache h = rw h.0 (prune-observed observed ps cache h.1)

    -- The vault is as the cache has it: the walk finds candidates with their recorded mtimes, and all that is
    -- cached.
    pub record IsUnchangedVault (cache : ExtractionCache) : Type 0 where
      pub paths : List (FilePath × Option FilePath)
      pub walked : fs.rglob vault_root ≡ map (λ p. p.0) paths
      pub unchanged : All (λ p. IsUnchanged cache p.0 p.1) paths
      pub all_observed :
          All
            (λ p. is_observed (all_seen paths []) p ≡ true)
            (cached_paths g fs vault_root nested cache)

    cold_start-unchanged :
        (s : State) (holder : SnapshotHolder g) (graph : g.Graph)
        → IsUnchangedVault s.cache
        → build_graph g s.cache ≡ ok graph
        → ColdStart.cold_start g fs vault_root nested s holder ≡ (
          ok (publish g graph [] holder).0,
          record { state = s; holder = (publish g graph [] holder).1 },
        )
    unfolding ColdStart.cold_start
    cold_start-unchanged s holder graph h built =
        rw
          (
            h.walked,
            walk-unchanged h.paths [] s h.unchanged,
            prune-observed (all_seen h.paths []) (cached_paths g fs vault_root nested s.cache)
                s.cache h.all_observed,
            built,
          )
          refl

  loaded :
      (loads : Loads) (file : Option (Artifact ExtractionCache)) (x c : ExtractionCache)
      → content_of g file ≡ some c
      → loads c ≡ ok (cache_data c)
      → load_cache loads file x ≡ (ok tt, c)
  unfolding load_cache
  loaded loads none x c h j = cc
  loaded loads (some file) x c h j = ground (arith, load-loads loads x c j)

  cold_start-loaded :
      (fs : FileSystem) (loads : Loads) (d : Daemon g) (cache : ExtractionCache) (graph : g.Graph)
      → load_cache loads d.disk.graph_cache_json d.cache ≡ (ok tt, cache)
      → IsUnchangedVault fs d.vault_root d.nested_repo_names cache
      → build_graph g cache ≡ ok graph
      → cold_start g fs loads d ≡ (
        ok (publish g graph [] d.holder).0,
        record d { cache = cache; holder = (publish g graph [] d.holder).1 },
      )
  unfolding cold_start
  cold_start-loaded fs loads d cache graph l h built =
      rw
        (
          l,
          cold_start-unchanged fs d.vault_root d.nested_repo_names
              (record { cache = cache; metrics = d.watcher.metrics; log = d.log }) d.holder graph h
              built,
        )
        refl

  -- A RUNNING daemon is shut down, and the shutdown returns; another daemon is made on the disk that it
  -- left. If json gives the persisted cache back, the vault is then as that cache has it, and its graph can
  -- be built, then the cold start logs nothing, the cache is the one that the last compilation before the
  -- shutdown left, and its graph is published as version 1.
  pub restart_round_trip :
      (before fs : FileSystem) (loads : Loads) (schedule : Schedule) (m : Moment) (d : Daemon g)
      (settings : Settings) (now : ℕ) (conn : Connection) (graph : g.Graph)
      → d.state ≡ DaemonState.running
      → (shutdown g before schedule m d).0 ≡ ok tt
      → loads (compile_pending g before schedule m (drained g d) (closing g d)).1.cache
        ≡ ok (cache_data (compile_pending g before schedule m (drained g d) (closing g d)).1.cache)
      → IsUnchangedVault fs settings.vault_root settings.nested_repo_names
          (compile_pending g before schedule m (drained g d) (closing g d)).1.cache
      → build_graph g (compile_pending g before schedule m (drained g d) (closing g d)).1.cache
        ≡ ok graph
      → let compiled = (compile_pending g before schedule m (drained g d) (closing g d)).1 in
        let (outcome, started) =
          cold_start g fs loads
            (init g settings now conn (shutdown g before schedule m d).1.disk) in
        (started.cache ≡ compiled.cache)
        × (started.log ≡ [])
        × (outcome ≡ ok (publish g graph [] (new_holder g)).0)
        × (started.holder.current ≡ some (publish g graph [] (new_holder g)).0)
        × ((publish g graph [] (new_holder g)).0.version ≡ 1)
  unfolding init publish new_holder
  restart_round_trip before fs loads schedule m d settings now conn graph h done json unchanged
        built =
      let persisted = (shutdown_persists g before schedule m d h done).2 in
      let final = (shutdown g before schedule m d).1.disk in
      let new : Daemon g = init g settings now conn final in
      let compiled = (compile_pending g before schedule m (drained g d) (closing g d)).1.cache in
      rw
        (cold_start-loaded fs loads new compiled graph
          (loaded loads final.graph_cache_json new.cache compiled persisted json) unchanged built)
        (refl, refl, refl, refl, refl)
