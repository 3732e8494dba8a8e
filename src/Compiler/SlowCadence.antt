-- ===== src/Compiler/SlowCadence.antt =====
-- vault_compiler/slow_cadence.py: the tracker of quiet time and accumulated changes. `now` is what
-- `time.monotonic()` returns in the call, in whole ticks.
use graphify_daemon_portfoli.Prelude.{
  ℕ, ◌+◌, ◌-◌, ◌≤◌, ◌≡◌, refl, ◌↔◌, ◌⊎◌, arith, Bool, true, List, [], ◌∷◌, leb, if◌then◌else◌,
}

pub record SlowCadenceTracker : Type 0 where
  pub quiet_seconds : ℕ
  pub change_threshold : ℕ
  pub accumulated_changes : ℕ
  pub last_batch_at : ℕ

unfoldable pub new_tracker : ℕ → ℕ → ℕ → SlowCadenceTracker
new_tracker quiet_seconds change_threshold now = record {
  quiet_seconds = quiet_seconds;
  change_threshold = change_threshold;
  accumulated_changes = 0;
  last_batch_at = now;
}

unfoldable pub record_batch : ℕ → ℕ → SlowCadenceTracker → SlowCadenceTracker
record_batch change_count now t = record t {
  accumulated_changes = t.accumulated_changes + change_count;
  last_batch_at = now;
}

unfoldable pub should_trigger : ℕ → SlowCadenceTracker → Bool
should_trigger now t =
    if leb t.change_threshold t.accumulated_changes
    then true
    else leb t.quiet_seconds (now - t.last_batch_at)

unfoldable pub reset : ℕ → SlowCadenceTracker → SlowCadenceTracker
reset now t = record t { accumulated_changes = 0; last_batch_at = now }

-- Batches recorded in turn, each with its number of changes and its time.
unfoldable pub record_batches : List (ℕ × ℕ) → SlowCadenceTracker → SlowCadenceTracker
record_batches [] t = t
record_batches ((count, now) ∷ bs) t = record_batches bs (record_batch count now t)

abbrev pub total : List (ℕ × ℕ) → ℕ
total [] = 0
total ((count, now) ∷ bs) = count + total bs

abbrev pub last_time : ℕ → List (ℕ × ℕ) → ℕ
last_time at [] = at
last_time at ((count, now) ∷ bs) = last_time now bs

recorded :
    (bs : List (ℕ × ℕ)) (t : SlowCadenceTracker)
    → ((record_batches bs t).accumulated_changes ≡ t.accumulated_changes + total bs)
      × ((record_batches bs t).last_batch_at ≡ last_time t.last_batch_at bs)
      × ((record_batches bs t).change_threshold ≡ t.change_threshold)
      × ((record_batches bs t).quiet_seconds ≡ t.quiet_seconds)
unfolding record_batches record_batch
recorded [] t = (omega arith, refl, refl, refl)
recorded ((count, now) ∷ bs) t = ground (arith, recorded bs (record_batch count now t))

-- Since a reset at time `r`, the cadence is due exactly when the changes of the batches reach the threshold,
-- or the quiet time has passed since the last batch (or the reset).
should_trigger_iff :
    (bs : List (ℕ × ℕ)) (t : SlowCadenceTracker) (r now : ℕ)
    → (should_trigger now (record_batches bs (reset r t)) ≡ true)
      ↔ ((t.change_threshold ≤ total bs) ⊎ (t.quiet_seconds ≤ now - last_time r bs))
unfolding should_trigger reset
should_trigger_iff bs t r now =
    (λ h. ground (arith, recorded bs (reset r t)), λ h. ground (arith, recorded bs (reset r t)))
