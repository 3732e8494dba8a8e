-- ===== src/Lifecycle/Metrics.antt =====
-- artifact_lifecycle/metrics.py: the telemetry registry. Times and latencies are whole ticks of the
-- clock. Every method body runs under the registry's lock, so that a method is one step.
pub mod Laws
use graphify_daemon_portfoli.Prelude.{
  ℕ, ◌+◌, ◌-◌, ◌*◌, ◌/◌, min, Option, none, some, List, [], ◌∷◌, ◌++◌, String, String-discrete, ltb,
  if◌then◌else◌, length, get_or, drop,
}
use graphify_daemon_portfoli.Prelude.Dict.{Dict, lookup, put}
use graphify_daemon_portfoli.Prelude.Sort.{sorted}
use mathlib.Core.Option

abbrev pub default_latency_window : ℕ
default_latency_window = 1000

pub record Metrics : Type 0 where
  pub counters : Dict String ℕ
  pub gauges : Dict String ℕ
  pub event_times : Dict String ℕ
  pub latencies : Dict String (List ℕ)
  pub latency_window : ℕ

unfoldable pub init : ℕ → Metrics
init latency_window = record {
  counters = [];
  gauges = [];
  event_times = [];
  latencies = [];
  latency_window = latency_window;
}

unfoldable pub counter : String → Metrics → ℕ
counter name m = Option.get_or (lookup String-discrete name m.counters) 0

unfoldable pub increment : String → ℕ → Metrics → Metrics
unfolding counter
increment name amount m = record m {
  counters = put String-discrete name (counter name m + amount) m.counters;
}

unfoldable pub set_gauge : String → ℕ → Metrics → Metrics
set_gauge name value m = record m { gauges = put String-discrete name value m.gauges }

unfoldable pub gauge : String → Metrics → Option ℕ
gauge name m = lookup String-discrete name m.gauges

-- `now` is what `time.monotonic()` returns in the call.
unfoldable pub record_event_time : String → ℕ → Metrics → Metrics
record_event_time name now m = record m { event_times = put String-discrete name now m.event_times }

unfoldable pub seconds_since_event : String → ℕ → Metrics → Option ℕ
seconds_since_event name now m =
    Option.map (λ at. now - at) (lookup String-discrete name m.event_times)

-- `deque(maxlen=window).append(x)`
abbrev pub append_bounded : ℕ → List ℕ → ℕ → List ℕ
append_bounded window samples x =
    let longer = samples ++ x ∷ [] in if ltb window (length longer) then drop 1 longer else longer

unfoldable pub samples : String → Metrics → List ℕ
samples name m = Option.get_or (lookup String-discrete name m.latencies) []

unfoldable pub record_latency : String → ℕ → Metrics → Metrics
unfolding samples
record_latency name seconds m = record m {
  latencies =
      put String-discrete name (append_bounded m.latency_window (samples name m) seconds)
        m.latencies;
}

pub record Percentiles : Type 0 where
  pub p50 : ℕ
  pub p95 : ℕ
  pub p99 : ℕ

-- `int(len(samples) * p)` for `p` in hundredths, at most the last place
abbrev pub pct_index : ℕ → List ℕ → ℕ
pct_index p xs = min (length xs - 1) (length xs * p / 100)

abbrev pub pct : ℕ → List ℕ → ℕ
pct p xs = get_or xs (pct_index p xs) 0

abbrev percentiles_of : List ℕ → Percentiles
percentiles_of [] = record { p50 = 0; p95 = 0; p99 = 0 }
percentiles_of (x ∷ xs) = record {
  p50 = pct 50 (x ∷ xs);
  p95 = pct 95 (x ∷ xs);
  p99 = pct 99 (x ∷ xs);
}

unfoldable pub latency_percentiles : String → Metrics → Percentiles
unfolding samples
latency_percentiles name m = percentiles_of (sorted (samples name m))

-- A component's hook, `if metrics is not None: …`
abbrev pub when_given : (Metrics → Metrics) → Option Metrics → Option Metrics
when_given f none = none
when_given f (some m) = some (f m)
