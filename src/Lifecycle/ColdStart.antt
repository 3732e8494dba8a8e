-- ===== src/Lifecycle/ColdStart.antt =====
-- artifact_lifecycle/cold_start.py: reconciliation of the cache with the vault, and the first snapshot.
pub mod Laws
use graphify_daemon_portfoli.Prelude.{
  ℕ, Bool, true, false, not, ◌||◌, Option, none, some, List, [], ◌∷◌, ◌++◌, String, ◌==◌,
  if◌then◌else◌, map, any,
}
use graphify_daemon_portfoli.Prelude.Exec.{
  Error, Result, Exec, ok, raise, value_error, ◌>>=◌, ◌>>◌, pure, lift, modify, or_raise,
  bind_result,
}
use graphify_daemon_portfoli.Prelude.Text.{codes}
use graphify_daemon_portfoli.Vault.Path.{FilePath, suffix, relative_to}
use graphify_daemon_portfoli.Vault.FileSystem.{FileSystem}
use graphify_daemon_portfoli.Vault.Exclusions.{
  contains, observed_suffixes, is_excluded, resolve_within_vault,
}
use graphify_daemon_portfoli.Graphify.{Communities, Extraction, Graphify}
use graphify_daemon_portfoli.Compiler.Extraction.{
  ExtractionCache, State, mtime, set, delete, entries, extract_file_with_failure_isolation,
  FilePath-discrete,
}
use graphify_daemon_portfoli.Compiler.Snapshot.{GraphSnapshot, SnapshotHolder, build_graph, publish}

-- Whether the recorded mtime is the current one.
abbrev pub is_recorded : Option ℕ → ℕ → Bool
is_recorded none current = false
is_recorded (some t) current = t == current

abbrev is_path : FilePath → FilePath → Bool
is_path p q = elim (FilePath-discrete p q) [ yes e ↦ true | no n ↦ false ]

-- `path in observed`
unfoldable pub is_observed : List FilePath → FilePath → Bool
is_observed observed p = any (is_path p) observed

abbrev log_rejected : FilePath → State → State
log_rejected relative s = record s {
  log =
      s.log
      ++ record {
        log_prefix = "Rejected";
        relative = relative;
        reason = codes "resolves outside the vault";
      }
        ∷ [];
}

module _ (g : Graphify) (fs : FileSystem) (vault_root : FilePath) (nested : List String) where
  -- The end of the loop's body: a file whose mtime is recorded is not extracted again.
  unfoldable pub refresh : FilePath → FilePath → Exec State Unit
  refresh path relative = do
    st ← lift (fs.stat path)
    λ s. elim (is_recorded (mtime relative s.cache) st.mtime) [
      | true ↦ pure tt s
      | false ↦
          (do
            outcome ←
                extract_file_with_failure_isolation g fs path vault_root relative
                  "Cold-start extraction failed"
            elim outcome [
              | none ↦ pure tt
              | some result ↦
                  modify (λ s'. record s' { cache = set relative result (some st.mtime) s'.cache })
            ])
            s
    ]

  -- A candidate that is in the observed scope: the paths observed after it.
  unfoldable pub confine : FilePath → FilePath → List FilePath → Exec State (List FilePath)
  unfolding refresh
  confine path relative observed = do
    real ← lift (resolve_within_vault fs path vault_root)
    elim real [
      | none ↦ do modify (log_rejected relative); pure observed
      | some p ↦ do refresh path relative; pure (relative ∷ observed)
    ]

  -- The body of the loop over the walk.
  unfoldable pub visit : FilePath → List FilePath → Exec State (List FilePath)
  unfolding confine
  visit path observed =
      if fs.is_dir path || not (contains observed_suffixes (suffix path)) then pure observed else do
        excluded ← lift (is_excluded path vault_root nested)
        elim excluded [
          | true ↦ pure observed
          | false ↦ do
            relative ← lift (or_raise value_error (relative_to path vault_root))
            confine path relative observed
        ]

  unfoldable pub walk : List FilePath → List FilePath → Exec State (List FilePath)
  walk [] observed = pure observed
  walk (path ∷ paths) observed = do observed' ← visit path observed; walk paths observed'

  -- The loop that drops what is no longer there, over the paths of the cache before it.
  unfoldable pub prune : List FilePath → List FilePath → ExtractionCache → ExtractionCache
  prune observed [] cache = cache
  prune observed (p ∷ ps) cache =
      prune observed ps (if is_observed observed p then cache else delete p cache)

  abbrev pub cached_paths : ExtractionCache → List FilePath
  cached_paths cache = map (λ e. e.0) (entries cache)

  pub record Started : Type 0 where
    pub state : State
    pub holder : SnapshotHolder g

  abbrev publish_first :
      SnapshotHolder g → Result g.Graph → State → Result (GraphSnapshot g) × Started
  publish_first holder (raise e) s = (raise e, record { state = s; holder = holder })
  publish_first holder (ok graph) s =
      let (snapshot, holder') = publish g graph [] holder in
      (ok snapshot, record { state = s; holder = holder' })

  abbrev after_walk :
      SnapshotHolder g → Result (List FilePath) → State → Result (GraphSnapshot g) × Started
  after_walk holder (raise e) s = (raise e, record { state = s; holder = holder })
  after_walk holder (ok observed) s =
      let pruned = prune observed (cached_paths s.cache) s.cache in
      publish_first holder (build_graph g pruned) (record s { cache = pruned })

  unfoldable pub cold_start : State → SnapshotHolder g → Result (GraphSnapshot g) × Started
  unfolding walk prune
  cold_start s holder =
      let walked = walk (fs.rglob vault_root) [] s in after_walk holder walked.0 walked.1
