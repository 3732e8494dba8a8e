-- ===== src/Compiler/Extraction/Renames.antt =====
-- vault_compiler/batching.py and vault_compiler/extraction.py together: what becomes of a rename whose
-- destination leads out of the vault.
use graphify_daemon_portfoli.Prelude.{
  ◌≡◌, refl, ◌∙◌, arith, false, Option, none, some, List, [], ◌∷◌, String, All,
}
use graphify_daemon_portfoli.Prelude.Exec.{ok}
use graphify_daemon_portfoli.Vault.Path.{FilePath, relative_to, str}
use graphify_daemon_portfoli.Vault.FileSystem.{FileSystem}
use graphify_daemon_portfoli.Vault.Exclusions.{excluded_relative, resolve_within_vault}
use graphify_daemon_portfoli.Vault.Batching.{ChangeKind, FileChange}
use graphify_daemon_portfoli.Vault.Batching.Handler.{
  FileSystemEvent, changed, on_any_event, on_any_event_iff, moved_file,
}
use graphify_daemon_portfoli.Graphify.{Extraction, Graphify}
use graphify_daemon_portfoli.Compiler.Extraction.{State, extract_batch}
use graphify_daemon_portfoli.Compiler.Extraction.Laws.{
  IsReadable, IsUnder, entry, effect, extracted, extract_batch-effects,
}

abbrev pub moved : FilePath → FilePath → FileSystemEvent
moved src dest = record {
  event_type = "moved";
  is_directory = false;
  src_path = src;
  dest_path = dest;
}

abbrev pub renamed_change : FilePath → FilePath → FileChange
renamed_change src dest = record {
  path = dest;
  kind = ChangeKind.renamed;
  previous_path = some src;
}

module _ (g : Graphify) (fs : FileSystem) (vault_root : FilePath) (nested : List String) where
  rename_effect :
      (src dest relative : FilePath) (r : Extraction) (old : Option Extraction)
      → relative_to dest vault_root ≡ some relative
      → excluded_relative relative nested ≡ false
      → extracted g fs vault_root nested dest ≡ some r
      → effect g fs vault_root nested (str relative) old (renamed_change src dest) ≡ some r
  unfolding effect
  rename_effect src dest relative r old under in_scope got = ground (arith, under, in_scope, got)

  -- The destination of a rename is not confined. A move within the vault to a path in the observed
  -- scope, whose real location lies outside the vault and whose extraction succeeds, makes a change;
  -- and `extract_batch`, in a readable environment, caches under the destination what it read there.
  pub rename_escapes :
      (src dest relative previous : FilePath) (r : Extraction) (s : State)
      → IsReadable fs vault_root
      → relative_to dest vault_root ≡ some relative
      → relative_to src vault_root ≡ some previous
      → excluded_relative relative nested ≡ false
      → resolve_within_vault fs dest vault_root ≡ ok none
      → extracted g fs vault_root nested dest ≡ some r
      → let change = renamed_change src dest in
        (on_any_event fs vault_root nested (moved src dest) ≡ ok (changed change))
        × (entry
              (str relative)
              (extract_batch g fs nested vault_root (record { changes = change ∷ [] }) s).1
            ≡ some r)
  rename_escapes src dest relative previous r s readable under source in_scope outside got =
      let h : All (IsUnder vault_root) (renamed_change src dest ∷ []) =
        (((λ e. absurd (cc)), (λ e. (src, refl, λ k. absurd (cc)))), tt) in
      let all =
        extract_batch-effects g fs vault_root nested readable
          (record { changes = renamed_change src dest ∷ [] }) s h in
      (
        (on_any_event_iff fs vault_root nested (moved src dest) (renamed_change src dest)).1
            (moved_file refl refl refl),
        all.1 (str relative)
            ∙ rename_effect src dest relative r (entry (str relative) s) under in_scope got,
      )
