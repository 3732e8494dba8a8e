-- ===== src/Tests/Watching.antt =====
-- The watcher and the path rules at concrete inputs.
use graphify_daemon_portfoli.Prelude.{◌≡◌, refl, ◌↔◌, false, none, some, [], ◌∷◌, ◌++◌}
use graphify_daemon_portfoli.Prelude.Exec.{ok}
use graphify_daemon_portfoli.Vault.Path.{FilePath, of_str, str}
use graphify_daemon_portfoli.Vault.Path.RoundTrip.{of_str-str}
use graphify_daemon_portfoli.Vault.Batching.{ChangeKind, FileChange}
use graphify_daemon_portfoli.Vault.Batching.Handler.{
  FileSystemEvent, changed, on_any_event, on_any_event_iff, Makes,
}
use graphify_daemon_portfoli.Vault.Batching.Watcher.{reject_new_events}
use graphify_daemon_portfoli.Vault.Batching.Watcher.Steps.{
  World, Reach, here, next, queue, start, after_queue, after_drain,
}
use graphify_daemon_portfoli.Vault.Batching.Watcher.Delivery.{
  changes_of, nothing_lost, drained_for_good,
}
use graphify_daemon_portfoli.Vault.Exclusions.{is_excluded, resolve_within_vault}
use graphify_daemon_portfoli.Vault.Exclusions.Laws.{InScope, is_excluded_iff, resolve_confined}
use graphify_daemon_portfoli.Tests.Fixtures.{vault, note, vault_fs, new_note, moved_note}

-- One change is queued.
abbrev queued : World
queued = after_queue new_note (start 2 none)

abbrev to_queued : Reach (start 2 none) queued
to_queued = next here (queue (start 2 none) new_note)

nothing_lost_example : changes_of queued.taken ++ queued.watcher.pending ≡ queued.accepted
nothing_lost_example = nothing_lost 2 none queued to_queued

abbrev rejecting : World
rejecting = record queued { watcher = reject_new_events queued.watcher }

-- A change comes after the drain.
abbrev late : World
late = after_queue moved_note (after_drain rejecting)

drained_for_good_example :
    (late.watcher.pending ≡ [])
    × (late.accepted ≡ queued.accepted)
    × (changes_of late.taken ≡ queued.accepted)
drained_for_good_example =
    drained_for_good 2 none queued rejecting late to_queued here
      (next here (queue (after_drain rejecting) moved_note))

abbrev modified_note : FileSystemEvent
modified_note = record {
  event_type = "modified";
  is_directory = false;
  src_path = note;
  dest_path = [];
}

abbrev edited_note : FileChange
edited_note = record { path = note; kind = ChangeKind.modified; previous_path = none }

on_any_event_iff_example :
    (on_any_event vault_fs vault [] modified_note ≡ ok (changed edited_note))
    ↔ Makes vault_fs vault [] modified_note edited_note
on_any_event_iff_example = on_any_event_iff vault_fs vault [] modified_note edited_note

is_excluded_iff_example :
    (is_excluded (vault ++ "x" ∷ "a.md" ∷ []) vault [] ≡ ok false) ↔ InScope ("x" ∷ "a.md" ∷ []) []
is_excluded_iff_example = is_excluded_iff vault ("x" ∷ "a.md" ∷ []) []

resolve_confined_example :
    (resolve_within_vault vault_fs note vault ≡ ok (some note))
    ↔ ((rest : FilePath) × (note ≡ vault ++ rest))
resolve_confined_example = resolve_confined vault_fs note vault note vault refl refl

of_str-str_example : of_str (str ("x" ∷ "a.md" ∷ [])) ≡ "x" ∷ "a.md" ∷ []
of_str-str_example =
    of_str-str ("x" ∷ "a.md" ∷ [])
      (((refl, tt), refl), (((refl, (refl, (refl, (refl, tt)))), refl), tt))
