-- ===== src/Lifecycle/Cadence.antt =====
-- artifact_lifecycle/cadence.py: the slow-cadence cycle. Every write of an artifact is taken to succeed.
use graphify_daemon_portfoli.Prelude.{
  ℕ, ◌≡◌, arith, Bool, true, false, Option, none, some, if◌then◌else◌,
}
use graphify_daemon_portfoli.Lifecycle.Metrics.{Metrics}
use graphify_daemon_portfoli.Lifecycle.Artifacts.{
  Disk, write_current, save_cache, write_graph_json, write_knowledge_md, Artifact,
}
use graphify_daemon_portfoli.Graphify.{Graphify}
use graphify_daemon_portfoli.Compiler.Snapshot.{GraphSnapshot, SnapshotHolder}
use graphify_daemon_portfoli.Compiler.Extraction.{ExtractionCache}
use graphify_daemon_portfoli.Compiler.SlowCadence.{SlowCadenceTracker, should_trigger, reset}
use graphify_daemon_portfoli.Compiler.Clustering.{Schedule, run_clustering_cycle}

module _ (g : Graphify) where
  -- What a cycle reads and changes.
  pub record Cycle : Type 0 where
    pub tracker : SlowCadenceTracker
    pub holder : SnapshotHolder g
    pub metrics : Option Metrics
    pub disk : Disk g

  -- The rest of a cycle that is due.
  unfoldable pub triggered : ExtractionCache → Schedule → ℕ → Cycle → Cycle
  triggered cache schedule later c =
      let clustered = run_clustering_cycle g c.holder schedule later c.metrics in
      record {
        tracker = reset later c.tracker;
        holder = clustered.holder;
        metrics = clustered.metrics;
        disk = save_cache g cache (write_current g clustered.holder.current c.disk);
      }

  -- `now` is the clock when the cycle asks whether it is due, and `later` when it ends.
  unfoldable pub run_slow_cadence_cycle : ExtractionCache → Schedule → ℕ → ℕ → Cycle → Bool × Cycle
  unfolding triggered
  run_slow_cadence_cycle cache schedule now later c =
      if should_trigger now c.tracker then (true, triggered cache schedule later c) else (false, c)

  -- The content of a file, if it is there.
  abbrev pub content_of : {A : Type 0} → Option (Artifact A) → Option A
  content_of none = none
  content_of (some a) = some a.content

  -- When the clustering of a due cycle is late, the cycle still persists: the graph on disk is the
  -- served one, without its warmed index, with the communities it had before; the cache is saved, the
  -- served snapshot stays, and the accumulated changes start again from 0.
  pub late_clustering_persists_previous :
      (cache : ExtractionCache) (schedule : Schedule) (now later : ℕ) (c : Cycle)
      (s : GraphSnapshot g)
      → should_trigger now c.tracker ≡ true
      → schedule.in_time ≡ false
      → c.holder.current ≡ some s
      → let (ran, after) = run_slow_cadence_cycle cache schedule now later c in
        (ran ≡ true)
        × (after.holder ≡ c.holder)
        × (content_of after.disk.graph_json
            ≡ some (record {
              graph = if g.has_index s.graph then g.without_index s.graph else s.graph;
              community_map = s.community_map;
            }))
        × (content_of after.disk.graph_cache_json ≡ some cache)
        × (after.tracker.accumulated_changes ≡ 0)
  unfolding run_slow_cadence_cycle run_clustering_cycle write_graph_json write_knowledge_md
      save_cache reset
  late_clustering_persists_previous cache schedule now later c s due late served =
      ground (arith, due, late, served)
