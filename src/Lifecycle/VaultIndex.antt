-- ===== src/Lifecycle/VaultIndex.antt =====
-- artifact_lifecycle/vault_index.py: the `files` table of `vault_index.db`, and its update from a
-- batch. SQLite itself is not in the repository: a table is a dictionary by its primary key, and a
-- transaction that raises leaves the table as it was.
pub mod Laws
pub mod Agreement
pub mod Database
use graphify_daemon_portfoli.Prelude.{
  ℕ, Bool, true, false, not, ◌&&◌, Option, none, some, List, [], ◌∷◌, String, String-discrete,
  if◌then◌else◌, length,
}
use graphify_daemon_portfoli.Prelude.Dict.{Dict, put, remove}
use graphify_daemon_portfoli.Prelude.Exec.{
  Error, Result, Exec, ok, raise, value_error, key_error, assertion_error, database_error, ◌>>=◌,
  ◌>>◌, pure, lift, modify, or_raise,
}
use graphify_daemon_portfoli.Vault.Path.{FilePath, relative_to, str}
use graphify_daemon_portfoli.Vault.FileSystem.{FileSystem, Stat}
use graphify_daemon_portfoli.Vault.Exclusions.{is_excluded}
use graphify_daemon_portfoli.Vault.Batching.{ChangeKind, FileChange, Batch}
use graphify_daemon_portfoli.Graphify.{Attrs, Extraction}
use graphify_daemon_portfoli.Compiler.Extraction
use graphify_daemon_portfoli.Compiler.Extraction.{ExtractionCache}

-- A row of `files`, without its key.
pub record Row : Type 0 where
  pub mtime : ℕ
  pub size : ℕ
  pub node_count : ℕ
  pub edge_count : ℕ

abbrev pub Table : Type 0
Table = Dict String Row

pub record Connection : Type 0 where
  pub is_open : Bool
  pub files : Table

abbrev has_list : Option (List Attrs) → Bool
has_list none = false
has_list (some l) = true

abbrev has_error : Option String → Bool
has_error none = false
has_error (some e) = true

abbrev has_keys : List String → Bool
has_keys [] = false
has_keys (k ∷ ks) = true

-- `bool(result)` of the dictionary
abbrev pub is_truthy : Extraction → Bool
is_truthy r =
    if has_list r.nodes
    then true
    else if has_list r.edges
    then true
    else if has_error r.error
    then true
    else has_keys r.other_keys

-- `len(result[key])`
abbrev pub count_list : Option (List Attrs) → Result ℕ
count_list none = raise key_error
count_list (some l) = ok (length l)

-- `len(result[key]) if result else 0`
abbrev pub count_of : (Extraction → Option (List Attrs)) → Option Extraction → Result ℕ
count_of field none = ok 0
count_of field (some r) = if is_truthy r then count_list (field r) else ok 0

-- `path.stat()`, or zeros for a missing file
unfoldable pub stat_or_zero : FileSystem → FilePath → Result Stat
stat_or_zero fs path = elim (fs.stat path) [
  | ok st ↦ ok st
  | raise Error.file_not_found ↦ ok (record { mtime = 0; size = 0 })
  | raise e ↦ raise e
]

-- DELETE FROM files WHERE path = ?
unfoldable pub delete_row : FilePath → Exec Table Unit
delete_row relative = modify (remove String-discrete (str relative))

module _ (fs : FileSystem) (cache : ExtractionCache) where
  -- The end of the loop's body: the upsert of the destination's row.
  unfoldable pub upsert : FilePath → FilePath → Exec Table Unit
  unfolding stat_or_zero Extraction.get
  upsert path relative = do
    node_count ← lift (count_of (λ r. r.nodes) (Extraction.get relative cache))
    edge_count ← lift (count_of (λ r. r.edges) (Extraction.get relative cache))
    st ← lift (stat_or_zero fs path)
    modify (
        put String-discrete (str relative) (record {
          mtime = st.mtime;
          size = st.size;
          node_count = node_count;
          edge_count = edge_count;
        }))

  -- The part of the loop's body for a rename, up to the upsert: whether the destination is excluded.
  unfoldable pub delete_previous : List String → FilePath → FileChange → Exec Table Bool
  unfolding delete_row
  delete_previous nested vault_root change = do
    previous_path ← lift (or_raise assertion_error change.previous_path)
    previous ← lift (or_raise value_error (relative_to previous_path vault_root))
    delete_row previous
    lift (is_excluded change.path vault_root nested)

  unfoldable pub sync_change : List String → FilePath → FileChange → Exec Table Unit
  unfolding upsert delete_row delete_previous
  sync_change nested vault_root change = do
    relative ← lift (or_raise value_error (relative_to change.path vault_root))
    elim change.kind [
      | ChangeKind.deleted ↦ delete_row relative
      | ChangeKind.renamed ↦ do
        excluded ← delete_previous nested vault_root change
        elim excluded [ true ↦ pure tt | false ↦ upsert change.path relative ]
      | _ ↦ upsert change.path relative
    ]

  -- The loop of `sync_batch`.
  unfoldable pub sync_changes : List String → FilePath → List FileChange → Exec Table Unit
  sync_changes nested vault_root [] = pure tt
  sync_changes nested vault_root (change ∷ changes) =
      sync_change nested vault_root change >> sync_changes nested vault_root changes

  -- `with conn:` commits the loop's changes, or rolls them back if it raised.
  abbrev transaction : Exec Table Unit → Exec Connection Unit
  transaction m conn = elim (m conn.files).0 [
    | ok u ↦ (ok tt, record conn { files = (m conn.files).1 })
    | raise e ↦ (raise e, conn)
  ]

  unfoldable pub sync_batch : List String → FilePath → Batch → Exec Connection Unit
  unfolding sync_changes
  sync_batch nested vault_root batch conn =
      if conn.is_open
      then transaction (sync_changes nested vault_root batch.changes) conn
      else (raise database_error, conn)
