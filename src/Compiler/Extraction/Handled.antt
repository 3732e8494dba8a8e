-- ===== src/Compiler/Extraction/Handled.antt =====
-- batching.py with extraction.py: the changes that the handler makes are changes that extract_batch takes.
use graphify_daemon_portfoli.Prelude.{◌≡◌, ◌≢◌, sym, ap, ◌∙◌, none, List, String, All, All-map}
use graphify_daemon_portfoli.Prelude.Dict.{Dict}
use graphify_daemon_portfoli.Prelude.Exec.{ok}
use graphify_daemon_portfoli.Vault.Path.{FilePath, relative_to}
use graphify_daemon_portfoli.Vault.FileSystem.{FileSystem}
use graphify_daemon_portfoli.Vault.Batching.{FileChange, Batch}
use graphify_daemon_portfoli.Vault.Batching.Handler.{
  FileSystemEvent, changed, on_any_event, on_any_event_iff, Makes, moved_file, changed_file,
}
use graphify_daemon_portfoli.Graphify.{Extraction, Graphify}
use graphify_daemon_portfoli.Compiler.Extraction.{State, extract_batch}
use graphify_daemon_portfoli.Compiler.Extraction.Laws.{IsReadable, IsUnder, extract_batch-effects}

-- An event of a watch on the vault: its path lies under the root, and so does the destination of a move.
abbrev pub IsWatched : FilePath → FileSystemEvent → Type 0
IsWatched vault_root event =
    (relative_to event.src_path vault_root ≢ none)
    × (event.event_type ≡ "moved" → relative_to event.dest_path vault_root ≢ none)

module _ (fs : FileSystem) (vault_root : FilePath) (nested : List String) where
  -- A change that the handler makes of an event of the watch.
  pub record IsHandled (c : FileChange) : Type 0 where
    pub event : FileSystemEvent
    pub watched : IsWatched vault_root event
    pub made : on_any_event fs vault_root nested event ≡ ok (changed c)

  made-IsUnder :
      (event : FileSystemEvent) (c : FileChange)
      → IsWatched vault_root event
      → Makes fs vault_root nested event c
      → IsUnder vault_root c
  made-IsUnder event c w (moved_file file moved same) = (
    λ h. w.1 moved (ap (λ x. relative_to x.path vault_root) (sym same) ∙ h),
    λ h. (event.src_path, ap (λ x. x.previous_path) same, w.0),
  )
  made-IsUnder event c w (changed_file kind file named plain admitted same) = (
    λ h. w.0 (ap (λ x. relative_to x.path vault_root) (sym same) ∙ h),
    λ h. absurd (plain (sym (ap (λ x. x.kind) same) ∙ h)),
  )

  handled-IsUnder : (c : FileChange) → IsHandled c → IsUnder vault_root c
  handled-IsUnder c h =
      made-IsUnder h.event c h.watched ((on_any_event_iff fs vault_root nested h.event c).0 h.made)

  -- The handler and extract_batch fit together: a batch of changes that the handler made of events under the
  -- watched root, moves within it included, is compiled without an exception, whatever the extractors
  -- do, if the root resolves and a stat fails at most for a missing file.
  pub handled_batch_compiles :
      (g : Graphify) (batch : Batch) (s : State)
      → IsReadable fs vault_root
      → All IsHandled batch.changes
      → (results : Dict FilePath Extraction) × ((extract_batch g fs nested vault_root batch s).0
          ≡ ok results)
  handled_batch_compiles g batch s r h =
      (extract_batch-effects g fs vault_root nested r batch s
        (All-map handled-IsUnder batch.changes h)).0
