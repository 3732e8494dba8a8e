-- ===== src/Compiler/Extraction/Muted.antt =====
-- vault_compiler/extraction.py: the telemetry registry has no influence on what extract_batch returns, caches
-- and logs.
use graphify_daemon_portfoli.Prelude.{
  refl, arith, Bool, true, false, Option, none, some, List, [], ◌∷◌, String,
}
use graphify_daemon_portfoli.Prelude.Dict.{Dict, put}
use graphify_daemon_portfoli.Prelude.Exec.{
  Result, Exec, ◌>>=◌, ◌>>◌, pure, lift, modify, or_raise, value_error,
}
use graphify_daemon_portfoli.Prelude.Frame.{IsBlind, bind-IsBlind}
use graphify_daemon_portfoli.Prelude.Text.{Text}
use graphify_daemon_portfoli.Vault.Path.{FilePath, relative_to}
use graphify_daemon_portfoli.Vault.FileSystem.{FileSystem}
use graphify_daemon_portfoli.Vault.Batching.{ChangeKind, FileChange, Batch}
use graphify_daemon_portfoli.Graphify.{Extraction, Graphify}
use graphify_daemon_portfoli.Compiler.Extraction.{
  State, set, stat_mtime, FilePath-discrete, report_failure, extract_file_with_failure_isolation,
  extract_destination, drop_cached, drop_previous, extract_change, extract_changes, extract_batch,
}

-- The state without the metrics.
abbrev pub muted : State → State
muted s = record s { metrics = none }

pure-IsBlind : {A : Type 0} (a : A) → IsBlind muted (pure a)
pure-IsBlind a = record { result = λ s. refl; rest = λ s. refl }

lift-IsBlind : {A : Type 0} (r : Result A) → IsBlind muted (lift r)
lift-IsBlind r = record { result = λ s. refl; rest = λ s. refl }

-- A choice between blind computations.
option-IsBlind :
    {A B : Type 0} (o : Option A) (m : Exec State B) (f : A → Exec State B)
    → IsBlind muted m
    → ((a : A) → IsBlind muted (f a))
    → IsBlind muted (elim o [ none ↦ m | some a ↦ f a ])
option-IsBlind none m f b k = b
option-IsBlind (some a) m f b k = k a

bool-IsBlind :
    {B : Type 0} (x : Bool) (m k : Exec State B)
    → IsBlind muted m
    → IsBlind muted k
    → IsBlind muted (elim x [ true ↦ m | false ↦ k ])
bool-IsBlind true m k b c = b
bool-IsBlind false m k b c = c

kind-IsBlind :
    {B : Type 0} (x : ChangeKind) (m k l : Exec State B)
    → IsBlind muted m
    → IsBlind muted k
    → IsBlind muted l
    → IsBlind muted (elim x [ ChangeKind.deleted ↦ m | ChangeKind.renamed ↦ k | _ ↦ l ])
kind-IsBlind ChangeKind.deleted m k l b c d = b
kind-IsBlind ChangeKind.renamed m k l b c d = c
kind-IsBlind ChangeKind.created m k l b c d = d
kind-IsBlind ChangeKind.modified m k l b c d = d

module _ (g : Graphify) (fs : FileSystem) where
  report-IsBlind :
      (message : Text) (vault_root relative : FilePath) (log_prefix : String)
      → IsBlind muted (report_failure g fs message vault_root relative log_prefix)
  unfolding report_failure
  report-IsBlind message vault_root relative log_prefix = record {
    result = λ s. ground arith;
    rest = λ s. ground arith;
  }

  isolated-IsBlind :
      (path vault_root relative : FilePath) (log_prefix : String)
      → IsBlind muted (extract_file_with_failure_isolation g fs path vault_root relative log_prefix)
  unfolding extract_file_with_failure_isolation report_failure
  isolated-IsBlind path vault_root relative log_prefix = record {
    result = λ s. ground arith;
    rest = λ s. ground arith;
  }

  stored-IsBlind :
      (path relative : FilePath) (results : Dict FilePath Extraction) (result : Extraction)
      → IsBlind muted (do
        stamp ← lift (stat_mtime fs path)
        modify (λ s. record s { cache = set relative result stamp s.cache })
        pure (put FilePath-discrete relative result results))
  stored-IsBlind path relative results result = record {
    result = λ s. ground arith;
    rest = λ s. ground arith;
  }

  destination-IsBlind :
      (path vault_root relative : FilePath) (results : Dict FilePath Extraction)
      → IsBlind muted (extract_destination g fs path vault_root relative results)
  unfolding extract_destination
  destination-IsBlind path vault_root relative results =
      bind-IsBlind muted _ _ (isolated-IsBlind path vault_root relative "Extraction failed") (λ o.
        option-IsBlind o _ _ (pure-IsBlind results) (λ r. stored-IsBlind path relative results r))

  drop-IsBlind : (relative : FilePath) → IsBlind muted (drop_cached g fs relative)
  unfolding drop_cached
  drop-IsBlind relative = record { result = λ s. refl; rest = λ s. refl }

  previous-IsBlind :
      (nested : List String) (vault_root : FilePath) (change : FileChange)
      → IsBlind muted (drop_previous g fs nested vault_root change)
  unfolding drop_previous drop_cached
  previous-IsBlind nested vault_root change = record {
    result = λ s. ground arith;
    rest = λ s. ground arith;
  }

  renamed-IsBlind :
      (vault_root relative : FilePath) (change : FileChange) (results : Dict FilePath Extraction)
      (nested : List String)
      → IsBlind muted (do
        excluded ← drop_previous g fs nested vault_root change
        elim excluded [
          | true ↦ pure results
          | false ↦ extract_destination g fs change.path vault_root relative results
        ])
  renamed-IsBlind vault_root relative change results nested =
      bind-IsBlind muted _ _ (previous-IsBlind nested vault_root change) (λ e.
        bool-IsBlind e _ _ (pure-IsBlind results)
          (destination-IsBlind change.path vault_root relative results))

  change-IsBlind :
      (nested : List String) (vault_root : FilePath) (change : FileChange)
      (results : Dict FilePath Extraction)
      → IsBlind muted (extract_change g fs nested vault_root change results)
  unfolding extract_change
  change-IsBlind nested vault_root change results =
      bind-IsBlind muted _ _
        (lift-IsBlind (or_raise value_error (relative_to change.path vault_root)))
        (λ relative.
          kind-IsBlind change.kind _ _ _
            (bind-IsBlind muted _ _ (drop-IsBlind relative) (λ u. pure-IsBlind results))
            (renamed-IsBlind vault_root relative change results nested)
            (destination-IsBlind change.path vault_root relative results))

  changes-IsBlind :
      (nested : List String) (vault_root : FilePath) (changes : List FileChange)
      (results : Dict FilePath Extraction)
      → IsBlind muted (extract_changes g fs nested vault_root changes results)
  unfolding extract_changes
  changes-IsBlind nested vault_root [] results = pure-IsBlind results
  changes-IsBlind nested vault_root (change ∷ changes) results =
      bind-IsBlind muted _ _ (change-IsBlind nested vault_root change results)
        (λ r. changes-IsBlind nested vault_root changes r)

  pub extract_batch-IsBlind :
      (nested : List String) (vault_root : FilePath) (batch : Batch)
      → IsBlind muted (extract_batch g fs nested vault_root batch)
  unfolding extract_batch
  extract_batch-IsBlind nested vault_root batch = changes-IsBlind nested vault_root batch.changes []
