-- ===== src/Tests/Serving.antt =====
-- The query cache, the telemetry, the snapshots and the slow cadence at concrete inputs.
use graphify_daemon_portfoli.Prelude.{
  ℕ, ◌≤◌, ◌≡◌, refl, sym, ◌∙◌, ◌↔◌, inl, inr, arith, true, false, none, some, List, [], ◌∷◌,
  String-discrete, ℕ_discrete,
}
use graphify_daemon_portfoli.Prelude.Dict.{lookup, put, remove}
use graphify_daemon_portfoli.Prelude.Sort.{sorted}
use graphify_daemon_portfoli.Prelude.Text.{codes, replace_from, starts_with}
use graphify_daemon_portfoli.Vault.Path.{str}
use graphify_daemon_portfoli.Vault.Exclusions.{sanitize_log_text}
use graphify_daemon_portfoli.Vault.Exclusions.Sanitize.{Avoids, sanitize-Avoids}
use graphify_daemon_portfoli.Query.Cache
use graphify_daemon_portfoli.Query.Cache.{QueryCache}
use graphify_daemon_portfoli.Query.Cache.History.{
  Call, get_call, set_call, run, history, Tracks, run-Tracks,
}
use graphify_daemon_portfoli.Lifecycle.Metrics.{Metrics, samples, latency_percentiles}
use graphify_daemon_portfoli.Lifecycle.Metrics.Laws.{IsUpperPercentile, latency_percentiles_lem}
use graphify_daemon_portfoli.Lifecycle.Cadence.{
  Cycle, run_slow_cadence_cycle, content_of, late_clustering_persists_previous,
}
use graphify_daemon_portfoli.Compiler.Snapshot.{GraphSnapshot, SnapshotHolder}
use graphify_daemon_portfoli.Compiler.SlowCadence.{SlowCadenceTracker, should_trigger}
use graphify_daemon_portfoli.Compiler.Clustering.{
  Schedule, run_clustering_cycle, build_previous_node_community,
}
use graphify_daemon_portfoli.Compiler.Clustering.Inversion.{Belongs, inversion_iff}
use graphify_daemon_portfoli.Tests.Fixtures.{vault, vault_fs, library, empty_cache}

-- A cache of two entries, with a third key that evicts.
abbrev calls : List (Call ℕ ℕ)
calls = set_call 1 10 ∷ set_call 2 20 ∷ get_call 1 ∷ set_call 3 30 ∷ []

abbrev after : QueryCache ℕ ℕ
after = run ℕ_discrete calls (Cache.init ℕ_discrete 2)

run-Tracks_example : Tracks ℕ_discrete 2 after (history ℕ_discrete 2 [] calls)
run-Tracks_example = run-Tracks ℕ_discrete 2 calls

-- The first key was used after the second, which is gone.
kept_entries : after.entries ≡ (1, 10) ∷ (3, 30) ∷ []
unfolding run Cache.init Cache.get Cache.set lookup put remove ℕ_discrete
kept_entries = refl

one_is_kept : (Cache.get ℕ_discrete 1 after).0 ≡ some 10
unfolding run Cache.init Cache.get Cache.set lookup put remove ℕ_discrete
one_is_kept = refl

sanitize-Avoids_example :
    Avoids (codes (str vault)) (codes "in <vault>/a.md")
    × Avoids (codes (str vault)) (codes "in <vault>/a.md")
unfolding str sanitize_log_text replace_from starts_with
sanitize-Avoids_example =
    sanitize-Avoids vault_fs (codes "in /v/a.md") vault vault (codes "v") (codes "v")
      (codes "in <vault>/a.md") refl refl refl (refl, tt) (refl, tt) refl

-- A registry with three samples, out of order.
abbrev metrics : Metrics
metrics = record {
  counters = ("queries", 4) ∷ [];
  gauges = [];
  event_times = [];
  latencies = ("query", 30 ∷ 10 ∷ 20 ∷ []) ∷ [];
  latency_window = 3;
}

latency_percentiles_lem_example :
    IsUpperPercentile 50 20 (30 ∷ 10 ∷ 20 ∷ [])
    × IsUpperPercentile 95 30 (30 ∷ 10 ∷ 20 ∷ [])
    × IsUpperPercentile 99 30 (30 ∷ 10 ∷ 20 ∷ [])
    × (20 ≤ 30)
    × (30 ≤ 30)
unfolding latency_percentiles samples lookup String-discrete sorted
latency_percentiles_lem_example = latency_percentiles_lem "query" metrics (omega arith)

abbrev served : GraphSnapshot library
served = record { graph = []; trigram_index = tt; community_map = (0, "a" ∷ []) ∷ []; version = 1 }

abbrev holder : SnapshotHolder library
holder = record { current = some served; next_version = 2 }

abbrev tracker : SlowCadenceTracker
tracker = record {
  quiet_seconds = 5;
  change_threshold = 3;
  accumulated_changes = 9;
  last_batch_at = 1;
}

-- A worker that does not answer in time.
abbrev late : Schedule
late = record { in_time = false; exits = false }

no_answer : (run_clustering_cycle library holder late 7 none).published ≡ none
unfolding run_clustering_cycle
no_answer = refl

only_community :
    (a b : ℕ) → Belongs "a" a ((0, "a" ∷ []) ∷ []) → Belongs "a" b ((0, "a" ∷ []) ∷ []) → a ≡ b
only_community a b (inl (p, x)) (inl (q, y)) = sym p ∙ q
only_community a b (inl (p, x)) (inr absent) = elim absent [ ]
only_community a b (inr absent) y = elim absent [ ]

inversion_iff_example :
    (lookup String-discrete "a" (build_previous_node_community ((0, "a" ∷ []) ∷ [])) ≡ some 0)
    ↔ Belongs "a" 0 ((0, "a" ∷ []) ∷ [])
inversion_iff_example = inversion_iff "a" ((0, "a" ∷ []) ∷ []) 0 only_community

abbrev cycle : Cycle library
cycle = record {
  tracker = tracker;
  holder = holder;
  metrics = none;
  disk = record {
    is_posix = true;
    graph_json = none;
    knowledge_md = none;
    graph_cache_json = none;
  };
}

is_due : should_trigger 7 tracker ≡ true
unfolding should_trigger
is_due = refl

late_clustering_persists_previous_example :
    let (ran, end) = run_slow_cadence_cycle library empty_cache late 7 8 cycle in
    (ran ≡ true)
    × (end.holder ≡ holder)
    × (content_of library end.disk.graph_json
        ≡ some (record { graph = []; community_map = (0, "a" ∷ []) ∷ [] }))
    × (content_of library end.disk.graph_cache_json ≡ some empty_cache)
    × (end.tracker.accumulated_changes ≡ 0)
late_clustering_persists_previous_example =
    late_clustering_persists_previous library empty_cache late 7 8 cycle served is_due refl refl
