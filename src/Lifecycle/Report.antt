-- ===== src/Lifecycle/Report.antt =====
-- artifact_lifecycle/metrics.py: what the metrics endpoint reports. The environment and the outputs of `git`
-- and `ps` are parameters; a command that fails raises.
use graphify_daemon_portfoli.Prelude.{
  ℕ, ◌*◌, Bool, true, false, not, Option, none, some, [], ◌∷◌, String, ite,
}
use graphify_daemon_portfoli.Prelude.Exec.{Result, ok, raise}
use graphify_daemon_portfoli.Prelude.Fallible.{◌>>=◌}
use graphify_daemon_portfoli.Prelude.Text.{Text, codes}
use graphify_daemon_portfoli.Graphify.{Graphify}
use graphify_daemon_portfoli.Compiler.Snapshot.{SnapshotHolder}
use graphify_daemon_portfoli.Lifecycle.Metrics.{
  Metrics, Percentiles, gauge, counter, latency_percentiles, seconds_since_event,
}
use graphify_daemon_portfoli.Query.Cache.{QueryCache, Rate, CacheKey, CacheKey-discrete, hit_rate}
use graphify_daemon_portfoli.Query.Transport.{strip, lower, is_nil, Text-discrete}
use mathlib.Core.Option

pub record System : Type 0 where
  pub variable : String → Option Text
  pub rev_parse : Result Text
  pub git_status : Result Text
  pub ps_rss : Result ℕ

-- `env_dirty in ("1", "true")`
abbrev is_dirty : Text → Bool
is_dirty s =
    ite (Text-discrete s (codes "1")) true (ite (Text-discrete s (codes "true")) true false)

-- The revision that `git` reports; `except Exception`: none.
abbrev live_revision : Result Text → Result Text → Option Text × Option Bool
live_revision (raise e) status = (none, none)
live_revision (ok sha) (raise e) = (none, none)
live_revision (ok sha) (ok status) = (some (strip sha), some (not (is_nil (strip status))))

abbrev revision : System → Option Text → Option Text × Option Bool
revision sys (some (c ∷ sha)) = (
  some (c ∷ sha),
  some (is_dirty (lower (strip (Option.get_or (sys.variable "GRAPHIFY_DAEMON_GIT_DIRTY") [])))),
)
revision sys (some []) = live_revision sys.rev_parse sys.git_status
revision sys none = live_revision sys.rev_parse sys.git_status

-- `resolve_git_revision`
unfoldable pub resolve_git_revision : System → Option Text × Option Bool
resolve_git_revision sys = revision sys (sys.variable "GRAPHIFY_DAEMON_GIT_SHA")

-- `_rss_bytes`
unfoldable pub rss_bytes : System → Result ℕ
rss_bytes sys = sys.ps_rss >>= λ kilobytes. ok (kilobytes * 1024)

pub record MetricsReport : Type 0 where
  pub queue_depth : ℕ
  pub snapshot_version : Option ℕ
  pub lru_cache_hit_rate : Rate
  pub query_latency_seconds : Percentiles
  pub seconds_since_last_clustering : Option ℕ
  pub rss_bytes : ℕ
  pub extraction_error_count : ℕ
  pub git_sha : Option Text
  pub git_dirty : Option Bool

-- `collect_metrics`, at `now`
unfoldable pub collect_metrics :
    System
    → (g : Graphify) → Metrics
    → SnapshotHolder g
    → QueryCache CacheKey Text
    → ℕ
    → Result MetricsReport
unfolding resolve_git_revision rss_bytes
collect_metrics sys g metrics holder query_cache now =
    let (git_sha, git_dirty) = resolve_git_revision sys in
    rss_bytes sys >>= λ rss. ok (record {
      queue_depth = Option.get_or (gauge "queue_depth" metrics) 0;
      snapshot_version = Option.map (λ s. s.version) holder.current;
      lru_cache_hit_rate = hit_rate CacheKey-discrete query_cache;
      query_latency_seconds = latency_percentiles "query" metrics;
      seconds_since_last_clustering = seconds_since_event "clustering_success" now metrics;
      rss_bytes = rss;
      extraction_error_count = counter "extraction_errors" metrics;
      git_sha = git_sha;
      git_dirty = git_dirty;
    })
