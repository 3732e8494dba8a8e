-- ===== src/Daemon/Threads/Publications.antt =====
-- daemon.py: how the threads change the served snapshot: a step publishes at most once, and in no other way.
use graphify_daemon_portfoli.Prelude.{
  ℕ, ◌≡◌, refl, ◌⊎◌, inl, inr, arith, Option, none, some, Option-cases, Bool-cases, length,
}
use graphify_daemon_portfoli.Prelude.Exec.{Result, ok, raise, Result-cases}
use graphify_daemon_portfoli.Vault.Batching.{Batch}
use graphify_daemon_portfoli.Graphify.{Communities, Graphify}
use graphify_daemon_portfoli.Lifecycle.Metrics.{Metrics}
use graphify_daemon_portfoli.Compiler.Snapshot.{SnapshotHolder, build_graph, publish}
use graphify_daemon_portfoli.Compiler.SlowCadence.{should_trigger, record_batch}
use graphify_daemon_portfoli.Compiler.Clustering.{
  Schedule, run_clustering_cycle, run_clustering_subprocess, build_previous_node_community,
}
use graphify_daemon_portfoli.Compiler.Extraction.{ExtractionCache}
use graphify_daemon_portfoli.Lifecycle.Cadence.{Cycle, run_slow_cadence_cycle}
use graphify_daemon_portfoli.Daemon.{
  Daemon, extract_step, sync_step, publish_step, cadence_step, run_cycle, on_idle_cadence,
  served_communities, persist_on_shutdown,
}
use graphify_daemon_portfoli.Daemon.Threads.{
  Turn, Caller, Phase, following, System, Work, Step, run_phase, continue, fires, fires_idle,
  flushes, takes, takes_drained, runs, takes_idle, runs_cycle, rejects, drains, stops,
  takes_persist, runs_persist, finishes, works, event, claims, returns_at_once,
}

module _ (g : Graphify) where
  -- The second holder is the first, or the first after one publication.
  abbrev pub Republished : SnapshotHolder g → SnapshotHolder g → Type 0
  Republished h h' =
      (h' ≡ h)
      ⊎ ((graph : g.Graph) × (communities : Communities) × (h' ≡ (publish g graph communities h).1))

  clustering-Republished :
      (h : SnapshotHolder g) (schedule : Schedule) (now : ℕ) (metrics : Option Metrics)
      → Republished h (run_clustering_cycle g h schedule now metrics).holder
  unfolding run_clustering_cycle
  clustering-Republished h schedule now metrics = elim (Option-cases h.current) [
    | inl e ↦ inl (rw e refl)
    | inr (s, e) ↦ elim (Option-cases (run_clustering_subprocess g s.graph schedule).0) [
      | inl q ↦ inl (ground (arith, e, q))
      | inr (raw, q) ↦ inr (
        s.graph,
        g.remap_communities_to_previous raw (build_previous_node_community s.community_map),
        ground (arith, e, q),
      )
    ]
  ]

  cycle-Republished :
      (cache : ExtractionCache) (schedule : Schedule) (now later : ℕ) (c : Cycle g)
      → Republished c.holder (run_slow_cadence_cycle g cache schedule now later c).1.holder
  unfolding run_slow_cadence_cycle
  cycle-Republished cache schedule now later c = elim (Bool-cases (should_trigger now c.tracker)) [
    | inl due ↦ rw due (clustering-Republished c.holder schedule later c.metrics)
    | inr quiet ↦ inl (rw quiet refl)
  ]

  publish-Republished :
      (t : Turn) (d : Daemon g) → Republished d.holder (publish_step g t.files d).1.holder
  unfolding publish_step
  publish-Republished t d = elim (Result-cases (build_graph g d.cache)) [
    | inl (graph, e) ↦ inr (graph, served_communities g d.holder.current, ground (arith, e))
    | inr (x, e) ↦ inl (ground (arith, e))
  ]

  phase-Republished :
      (p : Phase) (b : Batch) (t : Turn) (d : Daemon g)
      → Republished d.holder (run_phase g p b t d).1.holder
  unfolding run_phase extract_step sync_step cadence_step run_cycle
  phase-Republished Phase.extracting b t d = inl refl
  phase-Republished Phase.syncing b t d = inl refl
  phase-Republished Phase.publishing b t d = publish-Republished t d
  phase-Republished Phase.noting b t d =
      cycle-Republished d.cache t.schedule t.moment.asked t.moment.ended (record {
        tracker = record_batch (length b.changes) t.moment.recorded d.tracker;
        holder = d.holder;
        metrics = d.watcher.metrics;
        disk = d.disk;
      })

  continue-holder :
      (who : Caller) (b : Batch) (t : Turn) (q : Option Phase) (r : Result (Unit {0}))
      (s : System g)
      → (continue g who b t q r s).daemon.holder ≡ s.daemon.holder
  continue-holder who b t q (raise e) s = refl
  continue-holder who b t none (ok u) s = refl
  continue-holder who b t (some p) (ok u) s = refl

  Work-Republished : {s t : System g} → Work g s t → Republished s.daemon.holder t.daemon.holder
  unfolding on_idle_cadence run_cycle persist_on_shutdown
  Work-Republished (fires t e) = inl refl
  Work-Republished (fires_idle t e) = inl refl
  Work-Republished (flushes due) = inl refl
  Work-Republished (takes b xs ys t o e) = inl refl
  Work-Republished (takes_drained b t o st) = inl refl
  Work-Republished {s} (runs who b t p o) =
      rw
        (continue-holder who b t (following p) (run_phase g p b t s.daemon).0
          (record s { daemon = (run_phase g p b t s.daemon).1 }))
        (phase-Republished p b t s.daemon)
  Work-Republished (takes_idle t o e) = inl refl
  Work-Republished {s} (runs_cycle t o) =
      cycle-Republished s.daemon.cache t.schedule t.moment.asked t.moment.ended (record {
        tracker = s.daemon.tracker;
        holder = s.daemon.holder;
        metrics = s.daemon.watcher.metrics;
        disk = s.daemon.disk;
      })
  Work-Republished (rejects st) = inl refl
  Work-Republished (drains st) = inl refl
  Work-Republished (stops st) = inl refl
  Work-Republished (takes_persist o st) = inl refl
  Work-Republished (runs_persist o st) = inl refl
  Work-Republished (finishes st) = inl refl

  pub Step-Republished : {s t : System g} → Step g s t → Republished s.daemon.holder t.daemon.holder
  Step-Republished (works w) = Work-Republished w
  Step-Republished (event c) = inl refl
  Step-Republished (claims e) = inl refl
  Step-Republished (returns_at_once e) = inl refl
