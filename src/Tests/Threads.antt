-- ===== src/Tests/Threads.antt =====
-- The small daemon among its threads.
use graphify_daemon_portfoli.Prelude.{
  ℕ, some, ◌+◌, ◌≤◌, ◌≡◌, refl, arith, String-discrete, true, none, Bool, [], ◌∷◌,
}
use graphify_daemon_portfoli.Vault.Path.{relative_to}
use graphify_daemon_portfoli.Vault.Batching.{FileChange}
use graphify_daemon_portfoli.Vault.Batching.Watcher.{
  queue_change, warn_depth, restart_timer, reject_new_events, flush, drain_pending_batch,
}
use graphify_daemon_portfoli.Vault.Batching.Watcher.Delivery.{changes_of}
use graphify_daemon_portfoli.Compiler.Extraction
use graphify_daemon_portfoli.Daemon.{DaemonState, Daemon}
use graphify_daemon_portfoli.Daemon.Lifecycle.{rank}
use graphify_daemon_portfoli.Daemon.Threads.{
  Turn, Owner, Stage, Event, System, Reach, here, next, begin, IsFresh, after_queue, after_fire,
  after_flush, fires, flushes, works, event, claims, rejects, drains, stops, takes_persist,
  runs_persist, finishes, after_claim, after_reject, after_drain, after_stop, after_persist,
  after_finish,
}
use graphify_daemon_portfoli.Daemon.Threads.Accounting.Tally.{tally, compiled_of, held, awaited}
use graphify_daemon_portfoli.Daemon.Threads.Accounting.{accounted}
use graphify_daemon_portfoli.Daemon.Threads.Places.{persists_in}
use graphify_daemon_portfoli.Daemon.Threads.Progress.{Works, still, later, work_left, work_ends}
use graphify_daemon_portfoli.Daemon.Threads.Settling.{IsQuiet}
use graphify_daemon_portfoli.Daemon.Threads.Settling.Rest.{settles}
use graphify_daemon_portfoli.Lifecycle.Cadence.{content_of}
use graphify_daemon_portfoli.Daemon.Threads.Persisted.{persists_compiled}
use graphify_daemon_portfoli.Daemon.Threads.Sealed.{sealed}
use graphify_daemon_portfoli.Daemon.Threads.Serial.{serial, replay}
use graphify_daemon_portfoli.Daemon.Threads.Closing.{lifecycle_forward, persists_once}
use graphify_daemon_portfoli.Daemon.Threads.Order.{alone, batches_overtake}
use graphify_daemon_portfoli.Daemon.Threads.Order.Recreated.{
  deletion, creation, recreated_file_lost,
}
use graphify_daemon_portfoli.Tests.Fixtures.{
  library, vault_fs, note, new_note, moved_note, schedule, moment, daemon,
}

abbrev quiet : Daemon library
quiet = daemon true []

abbrev fresh : IsFresh library quiet
fresh = record {
  running = refl;
  accepting = refl;
  nothing = refl;
  no_timer = refl;
  no_idle_timer = refl;
}

abbrev turn : Turn
turn = record { files = vault_fs; schedule = schedule; moment = moment }

-- The note changes.
abbrev queued : System library
queued = after_queue library new_note (begin library quiet)

settles_example :
    (n : ℕ) × (t : System library) × Works library queued n t
    × IsQuiet library t
    × (t.daemon.watcher.pending ≡ [])
    × ((p : FileChange → Bool) → tally p (compiled_of t.history) ≡ tally p queued.accepted)
settles_example = settles library turn quiet queued fresh (next here (event new_note))

-- Its timer fires, and its thread takes the batch.
abbrev taken : System library
taken = after_flush library (after_fire library 0 queued)

to_taken : Works library queued 2 taken
unfolding queue_change warn_depth restart_timer
to_taken = later (later still (fires 0 refl)) (flushes (omega arith))

work_ends_example : 2 + work_left library taken ≤ work_left library queued
work_ends_example = work_ends library to_taken

-- A shutdown from its call to its end.
abbrev claimed : System library
claimed = after_claim library (begin library quiet)

abbrev drained : System library
drained = after_drain library (after_reject library claimed)

abbrev locked : System library
locked = record (after_stop library drained) { owner = Owner.persisting; stage = Stage.in_persist }

abbrev finished : System library
finished = after_finish library (after_persist library locked)

to_claimed : Reach library (begin library quiet) claimed
to_claimed = next here (claims refl)

from_claimed : {z : System library} → Reach library z claimed → Reach library z finished
unfolding drain_pending_batch reject_new_events
from_claimed r =
    next
      (next
        (next
          (next (next (next r (works (rejects refl))) (works (drains refl))) (works (stops refl)))
          (works (takes_persist refl refl)))
        (works (runs_persist refl refl)))
      (works (finishes refl))

lifecycle_forward_example : rank claimed.daemon.state ≤ rank finished.daemon.state
lifecycle_forward_example =
    lifecycle_forward library quiet claimed finished fresh to_claimed (from_claimed here)

persists_once_example :
    (persists_in finished.history ≤ 1)
    × (finished.daemon.state ≡ DaemonState.running → persists_in finished.history ≡ 0)
    × (finished.daemon.state ≡ DaemonState.stopped
        → (persists_in finished.history ≡ 1)
          × (finished.daemon.watcher.rejecting_events ≡ true)
          × (finished.daemon.watcher.pending ≡ [])
          × ((p : FileChange → Bool)
              → tally p finished.accepted
                ≡ tally p (compiled_of finished.history)
                  + tally p (held finished.owner)
                  + tally p (changes_of finished.in_hand)))
persists_once_example = persists_once library quiet finished fresh (from_claimed to_claimed)

recreated_file_lost_example :
    (s : System library) × Reach library (begin library quiet) s
    × (s.accepted ≡ deletion note ∷ creation note ∷ [])
    × (s.history
        ≡ Event.compiles (alone (creation note)) turn
          ∷ Event.compiles (alone (deletion note)) turn
          ∷ [])
    × (s.daemon.watcher.pending ≡ [])
    × (s.owner ≡ Owner.free)
    × (s.in_hand ≡ [])
    × (Extraction.get ("a.md" ∷ []) s.daemon.cache ≡ none)
unfolding relative_to String-discrete
recreated_file_lost_example =
    recreated_file_lost library quiet note ("a.md" ∷ []) turn turn fresh refl

-- Two batches are compiled, the second first.
abbrev overtaken :
    (s : System library) × Reach library (begin library quiet) s
    × (s.accepted ≡ new_note ∷ moved_note ∷ [])
    × (s.history
        ≡ Event.compiles (alone moved_note) turn ∷ Event.compiles (alone new_note) turn ∷ [])
    × (s.owner ≡ Owner.free)
    × (s.in_hand ≡ [])
    × (s.daemon.watcher.pending ≡ [])
overtaken = batches_overtake library quiet new_note moved_note turn turn fresh

serial_example :
    sealed library overtaken.0.daemon ≡ sealed library (replay library overtaken.0.history quiet)
serial_example = serial library quiet overtaken.0 overtaken.1 overtaken.4

accounted_example :
    tally (λ c. true) queued.accepted
    ≡ tally (λ c. true) (compiled_of queued.history)
      + tally (λ c. true) (held queued.owner)
      + tally (λ c. true) (awaited queued.stage)
      + tally (λ c. true) (changes_of queued.in_hand)
      + tally (λ c. true) queued.daemon.watcher.pending
accounted_example = accounted library (λ c. true) quiet queued fresh (next here (event new_note))

-- A shutdown persists while the batch of the note waits in the hand of its thread.
abbrev emptied : System library
emptied = after_drain library (after_reject library (after_claim library taken))

abbrev persisting : System library
persisting = record (after_stop library emptied) {
  owner = Owner.persisting;
  stage = Stage.in_persist;
}

to_persisting : Reach library (begin library quiet) persisting
unfolding queue_change warn_depth restart_timer flush drain_pending_batch reject_new_events
to_persisting =
    let flushed : Reach library (begin library quiet) taken =
      next (next (next here (event new_note)) (works (fires 0 refl)))
        (works (flushes (omega arith))) in
    let rejecting : Reach library (begin library quiet)
        (after_reject library (after_claim library taken)) =
      next (next flushed (claims refl)) (works (rejects refl)) in
    next (next (next rejecting (works (drains refl))) (works (stops refl)))
      (works (takes_persist refl refl))

persists_compiled_example :
    (content_of library (after_persist library persisting).daemon.disk.graph_cache_json
      ≡ some (replay library persisting.history quiet).cache)
    × ((after_persist library persisting).daemon.vault_index_conn.files
        ≡ (replay library persisting.history quiet).vault_index_conn.files)
    × ((p : FileChange → Bool)
        → tally p persisting.accepted
          ≡ tally p (compiled_of persisting.history) + tally p (changes_of persisting.in_hand))
persists_compiled_example = persists_compiled library quiet persisting fresh to_persisting refl
