-- ===== src/Compiler/Extraction.antt =====
-- vault_compiler/extraction.py: extraction with isolated failures, and the in-RAM cache.
pub mod Laws
pub mod Renames
pub mod Muted
pub mod Handled
use graphify_daemon_portfoli.Prelude.{
  ℕ, Bool, true, false, Option, none, some, List, [], ◌∷◌, ◌++◌, String, str_eq, String-discrete,
  if◌then◌else◌, map,
}
use graphify_daemon_portfoli.Prelude.Dict.{Dict, lookup, put, remove}
use graphify_daemon_portfoli.Prelude.Exec.{
  Error, Result, Exec, ok, raise, value_error, key_error, assertion_error, ◌>>=◌, ◌>>◌, pure, lift,
  modify, or_raise,
}
use graphify_daemon_portfoli.Prelude.Text.{Text, codes, Value}
use graphify_daemon_portfoli.Vault.Path.{FilePath, suffix, relative_to, str, of_str}
use graphify_daemon_portfoli.Vault.FileSystem.{FileSystem, Stat}
use graphify_daemon_portfoli.Vault.Exclusions.{is_excluded, sanitize_log_text}
use graphify_daemon_portfoli.Vault.Batching.{ChangeKind, FileChange, Batch}
use graphify_daemon_portfoli.Lifecycle.Metrics.{Metrics, when_given, increment}
use graphify_daemon_portfoli.Graphify.{Attrs, Extraction, Graphify}
use mathlib.Core.Option

-- `node["source_file"] = relative`
abbrev set_source_file : String → Attrs → Attrs
set_source_file relative = put String-discrete "source_file" (Value.text relative)

abbrev attribute_to : String → Extraction → Extraction
attribute_to relative r = record r {
  nodes = Option.map (map (set_source_file relative)) r.nodes;
  edges = Option.map (map (set_source_file relative)) r.edges;
}

pub record ExtractionCache : Type 0 where
  pub entries : Dict String Extraction
  pub mtimes : Dict String ℕ

abbrev pub empty : ExtractionCache
empty = record { entries = []; mtimes = [] }

unfoldable pub get : FilePath → ExtractionCache → Option Extraction
get relative_path c = lookup String-discrete (str relative_path) c.entries

unfoldable pub set : FilePath → Extraction → Option ℕ → ExtractionCache → ExtractionCache
set relative_path result none c = record c {
  entries = put String-discrete (str relative_path) result c.entries;
}
set relative_path result (some mtime) c = record {
  entries = put String-discrete (str relative_path) result c.entries;
  mtimes = put String-discrete (str relative_path) mtime c.mtimes;
}

unfoldable pub mtime : FilePath → ExtractionCache → Option ℕ
mtime relative_path c = lookup String-discrete (str relative_path) c.mtimes

unfoldable pub delete : FilePath → ExtractionCache → ExtractionCache
delete relative_path c = record {
  entries = remove String-discrete (str relative_path) c.entries;
  mtimes = remove String-discrete (str relative_path) c.mtimes;
}

-- `entries()`, as the list of its items
unfoldable pub entries : ExtractionCache → List (FilePath × Extraction)
entries c = map (λ e. (of_str e.0, e.1)) c.entries

-- A warning that an extraction failed; its text names the relative path and the reason.
pub record LogLine : Type 0 where
  pub log_prefix : String
  pub relative : FilePath
  pub reason : Text

-- What extraction changes: the cache, the metrics and the log.
pub record State : Type 0 where
  pub cache : ExtractionCache
  pub metrics : Option Metrics
  pub log : List LogLine

unfoldable pub FilePath-discrete : Discrete FilePath
FilePath-discrete = hlevel String-discrete

-- `path.stat().st_mtime`, a missing file caught
unfoldable pub stat_mtime : FileSystem → FilePath → Result (Option ℕ)
stat_mtime fs path = elim (fs.stat path) [
  | ok st ↦ ok (some st.mtime)
  | raise Error.file_not_found ↦ ok none
  | raise e ↦ raise e
]

module _ (g : Graphify) (fs : FileSystem) where
  open g use {str_exc, extract_markdown, extract_python}

  -- `_EXTRACTORS[path.suffix]`, applied
  unfoldable pub extractor : FilePath → Result Extraction
  extractor path =
      if str_eq (suffix path) ".md"
      then extract_markdown fs path
      else if str_eq (suffix path) ".py"
      then extract_python fs path
      else raise key_error

  unfoldable pub extract_file : FilePath → FilePath → Result Extraction
  unfolding extractor
  extract_file path vault_root = elim (extractor path) [
    | raise e ↦ raise e
    | ok result ↦ elim (relative_to path vault_root) [
      | none ↦ raise value_error
      | some relative ↦ ok (attribute_to (str relative) result)
    ]
  ]

  -- One failure: the log line with the sanitized reason, and the counter.
  unfoldable pub report_failure :
      Text → FilePath → FilePath → String → Exec State (Option Extraction)
  report_failure message vault_root relative log_prefix s =
      elim (sanitize_log_text fs message vault_root) [
        | raise e ↦ (raise e, s)
        | ok reason ↦ (
          ok none,
          record s {
            log =
                s.log
                ++ record { log_prefix = log_prefix; relative = relative; reason = reason } ∷ [];
            metrics = when_given (increment "extraction_errors" 1) s.metrics;
          },
        )
      ]

  unfoldable pub extract_file_with_failure_isolation :
      FilePath → FilePath → FilePath → String → Exec State (Option Extraction)
  unfolding report_failure
  extract_file_with_failure_isolation path vault_root relative log_prefix s =
      elim (extract_file path vault_root) [
        | raise e ↦ report_failure (str_exc e) vault_root relative log_prefix s
        | ok result ↦ elim result.error [
          | some message ↦ report_failure (codes message) vault_root relative log_prefix s
          | none ↦ (ok (some result), s)
        ]
      ]

  -- The end of the loop's body: the destination is extracted, and cached if that succeeded.
  unfoldable pub extract_destination :
      FilePath
      → FilePath
      → FilePath
      → Dict FilePath Extraction
      → Exec State (Dict FilePath Extraction)
  unfolding extract_file_with_failure_isolation stat_mtime set
  extract_destination path vault_root relative results = do
    outcome ← extract_file_with_failure_isolation path vault_root relative "Extraction failed"
    elim outcome [
      | none ↦ pure results
      | some result ↦ do
        stamp ← lift (stat_mtime fs path)
        modify (λ s. record s { cache = set relative result stamp s.cache })
        pure (put FilePath-discrete relative result results)
    ]

  -- `cache.delete(relative)`
  unfoldable pub drop_cached : FilePath → Exec State Unit
  unfolding delete
  drop_cached relative = modify (λ s. record s { cache = delete relative s.cache })

  -- The part of the loop's body for a rename, up to the extraction: whether the destination is excluded.
  unfoldable pub drop_previous : List String → FilePath → FileChange → Exec State Bool
  unfolding drop_cached
  drop_previous nested vault_root change = do
    previous_path ← lift (or_raise assertion_error change.previous_path)
    previous ← lift (or_raise value_error (relative_to previous_path vault_root))
    drop_cached previous
    lift (is_excluded change.path vault_root nested)

  -- The body of the loop of `extract_batch`.
  unfoldable pub extract_change :
      List String
      → FilePath
      → FileChange
      → Dict FilePath Extraction
      → Exec State (Dict FilePath Extraction)
  unfolding extract_destination drop_cached drop_previous
  extract_change nested vault_root change results = do
    relative ← lift (or_raise value_error (relative_to change.path vault_root))
    elim change.kind [
      | ChangeKind.deleted ↦ do drop_cached relative; pure results
      | ChangeKind.renamed ↦ do
        excluded ← drop_previous nested vault_root change
        elim excluded [
          | true ↦ pure results
          | false ↦ extract_destination change.path vault_root relative results
        ]
      | _ ↦ extract_destination change.path vault_root relative results
    ]

  -- The loop of `extract_batch`.
  unfoldable pub extract_changes :
      List String
      → FilePath
      → List FileChange
      → Dict FilePath Extraction
      → Exec State (Dict FilePath Extraction)
  extract_changes nested vault_root [] results = pure results
  extract_changes nested vault_root (change ∷ changes) results = do
    results' ← extract_change nested vault_root change results
    extract_changes nested vault_root changes results'

  unfoldable pub extract_batch :
      List String → FilePath → Batch → Exec State (Dict FilePath Extraction)
  unfolding extract_changes
  extract_batch nested vault_root batch = extract_changes nested vault_root batch.changes []
