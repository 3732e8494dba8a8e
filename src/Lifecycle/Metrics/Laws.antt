-- ===== src/Lifecycle/Metrics/Laws.antt =====
-- What the readings of artifact_lifecycle/metrics.py say of what was recorded.
use native.Mathlib.Nat.{mul-le-mul_left}
use graphify_daemon_portfoli.Prelude.{
  ℕ, ◌+◌, ◌*◌, ◌≤◌, ◌<◌, ◌≡◌, refl, ◌∙◌, sym, arith, List, [], ◌∷◌, ◌++◌, String, String-discrete,
  length, ite, length-append, append-nil, append_assoc,
}
use graphify_daemon_portfoli.Prelude.Dict.{lookup-put}
use graphify_daemon_portfoli.Prelude.Sort.{
  sorted, count_le, count_ge, sorted-IsSorted, length-sorted, count_le-sorted, count_ge-sorted,
  get_or_mono, count_le-get_or, count_ge-get_or,
}
use graphify_daemon_portfoli.Prelude.Window.{
  last, last_all, last-drop, length-last-le, last-last-append,
}
use graphify_daemon_portfoli.Lifecycle.Metrics.{
  Metrics, counter, increment, samples, record_latency, append_bounded, pct, pct_index,
  percentiles_of, latency_percentiles,
}

-- An increment adds its amount to its own counter and to no other.
counter-increment :
    (name other : String) (amount : ℕ) (m : Metrics)
    → counter other (increment name amount m)
      ≡ (ite (String-discrete name other) (counter name m + amount) (counter other m))
unfolding counter increment
counter-increment name other amount m =
    ground (arith, lookup-put String-discrete name other (counter name m + amount) m.counters)

append_bounded_lem :
    (w : ℕ) (xs : List ℕ) (x : ℕ) → length xs ≤ w → append_bounded w xs x ≡ last w (xs ++ x ∷ [])
append_bounded_lem w xs x h =
    ground (arith, length-append xs (x ∷ []), last_all w (xs ++ x ∷ []), last-drop w (xs ++ x ∷ []))

-- Latencies recorded in turn under one name.
unfoldable pub record_all : String → List ℕ → Metrics → Metrics
record_all name [] m = m
record_all name (x ∷ xs) m = record_all name xs (record_latency name x m)

samples-record :
    (name : String) (x : ℕ) (m : Metrics)
    → samples name (record_latency name x m) ≡ append_bounded m.latency_window (samples name m) x
unfolding samples record_latency
samples-record name x m = ground (
  arith,
  lookup-put String-discrete name name (append_bounded m.latency_window (samples name m) x)
      m.latencies,
)

window-record :
    (name : String) (x : ℕ) (m : Metrics)
    → (record_latency name x m).latency_window ≡ m.latency_window
unfolding record_latency
window-record name x m = refl

bounded :
    (name : String) (x : ℕ) (m : Metrics)
    → length (samples name m) ≤ m.latency_window
    → samples name (record_latency name x m) ≡ last m.latency_window (samples name m ++ x ∷ [])
bounded name x m h =
    samples-record name x m ∙ append_bounded_lem m.latency_window (samples name m) x h

-- If the samples under a name fit the window, then after any further latencies the samples are the
-- last `latency_window` of the old and the recorded ones.
pub samples-record_all :
    (name : String) (xs : List ℕ) (m : Metrics)
    → length (samples name m) ≤ m.latency_window
    → samples name (record_all name xs m) ≡ last m.latency_window (samples name m ++ xs)
unfolding record_all
samples-record_all name [] m h =
    simp append-nil (sym (last_all m.latency_window (samples name m) h))
samples-record_all name (x ∷ xs) m h =
    samples-record_all name xs (record_latency name x m) (
      ground (
        arith,
        bounded name x m h,
        window-record name x m,
        length-last-le m.latency_window (samples name m ++ x ∷ []),
      ))
    ∙ simp (window-record, bounded name x m h, last-last-append, append_assoc)

-- The upper percentile: more than `p` per cent of the samples are at most the value, and at most `p` per
-- cent of them are below it.
pub record IsUpperPercentile (p value : ℕ) (xs : List ℕ) : Type 0 where
  pub more_at_most : length xs * p < 100 * count_le value xs
  pub few_below : 100 * length xs ≤ length xs * p + 100 * count_ge value xs

-- Below 100 per cent the place of a percentile is the whole part of `n * p / 100`.
pct_index_bounds :
    (p : ℕ) (xs : List ℕ)
    → 0 < length xs
    → p < 100
    → (length xs * p < 100 * (pct_index p xs + 1)) × (100 * pct_index p xs ≤ length xs * p)
pct_index_bounds p xs h k =
    let small : length xs * p ≤ length xs * 99 = mul-le-mul_left (length xs) (omega (arith, k)) in
    (omega (arith, small), omega (arith, small))

pct-IsUpperPercentile :
    (p : ℕ) (xs : List ℕ) → 0 < length xs → p < 100 → IsUpperPercentile p (pct p (sorted xs)) xs
pct-IsUpperPercentile p xs h k =
    let (below, above) = pct_index_bounds p (sorted xs) (ground (arith, length-sorted xs)) k in
    record {
      more_at_most = ground (
        arith,
        below,
        length-sorted xs,
        count_le-get_or (pct_index p (sorted xs)) 0 (sorted xs) (sorted-IsSorted xs),
        count_le-sorted (pct p (sorted xs)) xs,
      );
      few_below = ground (
        arith,
        above,
        length-sorted xs,
        count_ge-get_or (pct_index p (sorted xs)) 0 (sorted xs) (sorted-IsSorted xs),
        count_ge-sorted (pct p (sorted xs)) xs,
      );
    }

percentiles_shape :
    (ys : List ℕ)
    → 0 < length ys
    → percentiles_of ys ≡ record { p50 = pct 50 ys; p95 = pct 95 ys; p99 = pct 99 ys }
percentiles_shape [] h = absurd (omega arith)
percentiles_shape (y ∷ ys) h = refl

ordered :
    (p q : ℕ) (xs : List ℕ)
    → 0 < length xs
    → pct_index p (sorted xs) ≤ pct_index q (sorted xs)
    → pct p (sorted xs) ≤ pct q (sorted xs)
ordered p q xs h k =
    get_or_mono (pct_index p (sorted xs)) (pct_index q (sorted xs)) 0 (sorted xs)
      (sorted-IsSorted xs) k (omega (arith, length-sorted xs))

-- With at least one sample under the name, the three reported latencies are the upper percentiles of
-- the samples at 50, 95 and 99 per cent, and they are in order.
pub latency_percentiles_lem :
    (name : String) (m : Metrics)
    → 0 < length (samples name m)
    → IsUpperPercentile 50 (latency_percentiles name m).p50 (samples name m)
      × IsUpperPercentile 95 (latency_percentiles name m).p95 (samples name m)
      × IsUpperPercentile 99 (latency_percentiles name m).p99 (samples name m)
      × ((latency_percentiles name m).p50 ≤ (latency_percentiles name m).p95)
      × ((latency_percentiles name m).p95 ≤ (latency_percentiles name m).p99)
unfolding latency_percentiles sorted
latency_percentiles_lem name m h =
    rw (percentiles_shape (sorted (samples name m)) (omega (arith, length-sorted (samples name m))))
      (
        pct-IsUpperPercentile 50 (samples name m) h (omega arith),
        pct-IsUpperPercentile 95 (samples name m) h (omega arith),
        pct-IsUpperPercentile 99 (samples name m) h (omega arith),
        ordered 50 95 (samples name m) h (omega arith),
        ordered 95 99 (samples name m) h (omega arith),
      )
