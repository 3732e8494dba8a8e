-- ===== src/Tests/Compiling.antt =====
-- Extraction, indexing, cold start and shutdown of a small daemon.
use mathlib.Core.List.{foldl}
use graphify_daemon_portfoli.Prelude.{
  ◌≡◌, ◌≢◌, refl, arith, true, false, none, some, [], ◌∷◌, String, String-discrete, All, ite,
}
use graphify_daemon_portfoli.Prelude.Dict.{Dict, lookup, put, remove}
use graphify_daemon_portfoli.Prelude.Exec.{ok}
use graphify_daemon_portfoli.Prelude.Text.{Value}
use graphify_daemon_portfoli.Vault.Path.{suffix, last_dot, FilePath, str, relative_to}
use graphify_daemon_portfoli.Vault.Exclusions.{is_excluded, excluded_relative, resolve_within_vault}
use graphify_daemon_portfoli.Vault.FileSystem.{FileSystem}
use graphify_daemon_portfoli.Vault.Batching.Handler.{
  FileSystemEvent, watchdog_event_kind, changed, on_any_event,
}
use graphify_daemon_portfoli.Vault.Batching.{Batch}
use graphify_daemon_portfoli.Compiler.Extraction.Handled.{IsHandled, handled_batch_compiles}
use graphify_daemon_portfoli.Compiler.Extraction.Renames.{moved, rename_escapes}
use graphify_daemon_portfoli.Vault.Exclusions.Laws.{append-relative_to}
use graphify_daemon_portfoli.Graphify.{Extraction}
use graphify_daemon_portfoli.Compiler.Extraction
use graphify_daemon_portfoli.Compiler.Extraction.{
  ExtractionCache, State, extract_batch, extract_changes, extract_change, drop_previous, stat_mtime,
}
use graphify_daemon_portfoli.Compiler.Extraction.Laws.{
  IsReadable, IsUnder, entry, effect, extracted, extract_batch-effects,
}
use graphify_daemon_portfoli.Lifecycle.VaultIndex.{sync_batch, stat_or_zero}
use graphify_daemon_portfoli.Lifecycle.VaultIndex.Laws.{IsIndexable, row_effect, sync_batch-effects}
use graphify_daemon_portfoli.Lifecycle.VaultIndex.Agreement.{Agrees, compile_keeps_agreement}
use graphify_daemon_portfoli.Tests.Fixtures.{
  vault, note, script, vault_fs, library, one_node, new_note, moved_note, batch, empty_cache, state,
  connection,
}

readable : IsReadable vault_fs vault
unfolding stat_mtime
readable = record { resolved_root = vault; resolves = refl; stamp = λ p. some 7; stats = λ p. refl }

note_under : relative_to note vault ≢ none
note_under h = absurd (cc (append-relative_to vault ("a.md" ∷ [])))

script_under : relative_to script vault ≢ none
script_under h = absurd (cc (append-relative_to vault ("b.py" ∷ [])))

moved_under : relative_to moved_note.path vault ≢ none
moved_under h = absurd (cc (append-relative_to vault ("c.md" ∷ [])))

under : All (IsUnder vault) batch.changes
under = (
  (note_under, λ h. absurd (cc)),
  ((script_under, λ h. absurd (cc)), ((moved_under, λ h. (note, refl, note_under)), tt)),
)

extract_batch-effects_example :
    ((results : _) × ((extract_batch library vault_fs [] vault batch state).0 ≡ ok results))
    × ((k : String)
        → entry k (extract_batch library vault_fs [] vault batch state).1
          ≡ foldl (effect library vault_fs vault [] k) (entry k state) batch.changes)
extract_batch-effects_example =
    extract_batch-effects library vault_fs vault [] readable batch state under

indexable : IsIndexable vault_fs empty_cache
unfolding stat_or_zero Extraction.get lookup
indexable = record {
  nodes = λ p. 0;
  edges = λ p. 0;
  stat = λ p. record { mtime = 7; size = 3 };
  counts_nodes = λ p. refl;
  counts_edges = λ p. refl;
  stats = λ p. refl;
}

sync_batch-effects_example :
    ((sync_batch vault_fs empty_cache [] vault batch (connection true)).0 ≡ ok tt)
    × ((k : String)
        → lookup String-discrete k
            (sync_batch vault_fs empty_cache [] vault batch (connection true)).1.files
          ≡ foldl
              (row_effect vault_fs empty_cache vault [] indexable k)
              (lookup String-discrete k [])
              batch.changes)
sync_batch-effects_example =
    sync_batch-effects vault_fs empty_cache vault [] indexable batch [] under

abbrev compiled : ExtractionCache
compiled = (extract_batch library vault_fs [] vault batch state).1.cache

-- The node of the note, attributed to the path that the note moved to.
abbrev moved_entry : Extraction
moved_entry = record one_node { nodes = some ((("source_file", Value.text "c.md") ∷ []) ∷ []) }

batch_entries : compiled.entries ≡ ("c.md", moved_entry) ∷ []
unfolding extract_batch extract_changes extract_change drop_previous is_excluded lookup put remove
    suffix last_dot String-discrete Extraction.set relative_to Extraction.extract_file str
batch_entries = refl

compiled_indexable : IsIndexable vault_fs compiled
unfolding stat_or_zero Extraction.get lookup
compiled_indexable = record {
  nodes = λ p. ite (String-discrete "c.md" (str p)) 1 0;
  edges = λ p. 0;
  stat = λ p. record { mtime = 7; size = 3 };
  counts_nodes = λ p. ground (arith, batch_entries);
  counts_edges = λ p. ground (arith, batch_entries);
  stats = λ p. refl;
}

compile_keeps_agreement_example : Agrees (lookup String-discrete "c.md" compiled.entries) (
    lookup String-discrete "c.md"
      (sync_batch vault_fs compiled [] vault batch (connection true)).1.files)
unfolding lookup
compile_keeps_agreement_example =
    compile_keeps_agreement library vault_fs [] vault batch state (connection true) "c.md" readable
      under refl compiled_indexable refl

moved_in_scope : excluded_relative ("c.md" ∷ []) [] ≡ false
unfolding suffix last_dot
moved_in_scope = refl

-- A file system in which everything below the vault is a link to a file elsewhere.
abbrev below_vault : FilePath → FilePath
below_vault [] = []
below_vault (a ∷ []) = a ∷ []
below_vault (a ∷ b ∷ []) = a ∷ b ∷ []
below_vault (a ∷ b ∷ c ∷ rest) = "/" ∷ "etc" ∷ []

abbrev linked_fs : FileSystem
linked_fs = record vault_fs { resolve = λ p. ok (below_vault p) }

linked-IsReadable : IsReadable linked_fs vault
unfolding stat_mtime
linked-IsReadable = record {
  resolved_root = vault;
  resolves = refl;
  stamp = λ p. some 7;
  stats = λ p. refl;
}

link_leads_out : resolve_within_vault linked_fs moved_note.path vault ≡ ok none
unfolding resolve_within_vault relative_to String-discrete
link_leads_out = refl

link_is_read : extracted library linked_fs vault [] moved_note.path ≡ some moved_entry
unfolding extracted Extraction.extract_file suffix last_dot relative_to str put String-discrete
link_is_read = refl

rename_escapes_example :
    (on_any_event linked_fs vault [] (moved note moved_note.path) ≡ ok (changed moved_note))
    × (entry
          (str ("c.md" ∷ []))
          (extract_batch library linked_fs [] vault (record { changes = moved_note ∷ [] }) state).1
        ≡ some moved_entry)
rename_escapes_example =
    rename_escapes library linked_fs vault [] note moved_note.path ("c.md" ∷ []) ("a.md" ∷ [])
      moved_entry state linked-IsReadable (append-relative_to vault ("c.md" ∷ []))
      (append-relative_to vault ("a.md" ∷ [])) moved_in_scope link_leads_out link_is_read

-- The events behind a batch: a note appears, and is moved.
abbrev appears : FileSystemEvent
appears = record { event_type = "created"; is_directory = false; src_path = note; dest_path = [] }

abbrev moves : FileSystemEvent
moves = record {
  event_type = "moved";
  is_directory = false;
  src_path = note;
  dest_path = moved_note.path;
}

appears-IsHandled : IsHandled vault_fs vault [] new_note
unfolding on_any_event is_excluded resolve_within_vault relative_to String-discrete suffix last_dot
    str watchdog_event_kind
appears-IsHandled = record {
  event = appears;
  watched = (note_under, λ h. absurd (cc));
  made = refl;
}

moves-IsHandled : IsHandled vault_fs vault [] moved_note
unfolding on_any_event watchdog_event_kind
moves-IsHandled = record { event = moves; watched = (note_under, λ h. moved_under); made = refl }

abbrev handled : Batch
handled = record { changes = new_note ∷ moved_note ∷ [] }

handled_batch_compiles_example :
    (results : Dict FilePath graphify_daemon_portfoli.Graphify.Extraction) × ((extract_batch library
        vault_fs [] vault handled state).0
      ≡ ok results)
handled_batch_compiles_example =
    handled_batch_compiles vault_fs vault [] library handled state readable
      (appears-IsHandled, (moves-IsHandled, tt))
