-- ===== src/Compiler/Extraction/Laws.antt =====
-- vault_compiler/extraction.py: what `extract_batch` makes of the cache, key by key.
use mathlib.Core.List.{foldl}
use graphify_daemon_portfoli.Prelude.{
  ℕ, ◌≡◌, ◌≢◌, refl, ap, ◌∙◌, arith, true, false, Option, none, some, List, [], ◌∷◌, String,
  String-discrete, ite, All, Option-cases, Bool-cases, inl, inr,
}
use graphify_daemon_portfoli.Prelude.Dict.{Dict, lookup, put, lookup-put, lookup-remove}
use graphify_daemon_portfoli.Prelude.Exec.{Result, ok, raise}
use graphify_daemon_portfoli.Vault.Path.{FilePath, relative_to, str}
use graphify_daemon_portfoli.Vault.FileSystem.{FileSystem}
use graphify_daemon_portfoli.Vault.Exclusions.{is_excluded, sanitize_log_text, excluded_relative}
use graphify_daemon_portfoli.Vault.Batching.{ChangeKind, FileChange, Batch}
use graphify_daemon_portfoli.Graphify.{Extraction, Graphify}
use graphify_daemon_portfoli.Compiler.Extraction.{
  ExtractionCache, State, extract_file, report_failure, extract_file_with_failure_isolation,
  stat_mtime, extract_destination, drop_cached, drop_previous, extract_change, extract_changes,
  extract_batch, set, delete, FilePath-discrete,
}

abbrev pub entry : String → State → Option Extraction
entry k s = lookup String-discrete k s.cache.entries

-- The environment lets a batch run to its end: the vault's root resolves, and a stat fails at most
-- because the file is not there.
pub record IsReadable (fs : FileSystem) (vault_root : FilePath) : Type 0 where
  pub resolved_root : FilePath
  pub resolves : fs.resolve vault_root ≡ ok resolved_root
  pub stamp : FilePath → Option ℕ
  pub stats : (path : FilePath) → stat_mtime fs path ≡ ok (stamp path)

-- A change of a file under the root; a rename names its source under the root too.
abbrev pub IsUnder : FilePath → FileChange → Type 0
IsUnder vault_root c =
    (relative_to c.path vault_root ≢ none)
    × (c.kind ≡ ChangeKind.renamed
        → (p : FilePath) × (c.previous_path ≡ some p) × (relative_to p vault_root ≢ none))

module _ (g : Graphify) (fs : FileSystem) (vault_root : FilePath) (nested : List String) where
  -- The successful result of an extraction: neither of the two failure modes.
  abbrev usable : Result Extraction → Option Extraction
  usable (raise e) = none
  usable (ok r) = elim r.error [ some message ↦ none | none ↦ some r ]

  unfoldable pub extracted : FilePath → Option Extraction
  extracted path = usable (extract_file g fs path vault_root)

  -- What the entry at `k` becomes when a file is extracted: its result, or what it was if that failed.
  abbrev pub refreshed : String → FilePath → FilePath → Option Extraction → Option Extraction
  refreshed k path relative old =
      ite (String-discrete (str relative) k)
        (elim (extracted path) [ none ↦ old | some r ↦ some r ]) old

  abbrev pub dropped : String → FilePath → Option Extraction → Option Extraction
  dropped k relative old = ite (String-discrete (str relative) k) none old

  abbrev pub dropped_source : String → Option FilePath → Option Extraction → Option Extraction
  dropped_source k none old = old
  dropped_source k (some p) old = elim (relative_to p vault_root) [
    | none ↦ old
    | some previous ↦ dropped k previous old
  ]

  -- The specification of one change at one key: a deletion drops the entry, a creation or modification
  -- refreshes it, and a rename drops its source and refreshes its destination unless that is excluded.
  unfoldable pub effect : String → Option Extraction → FileChange → Option Extraction
  effect k old change = elim (relative_to change.path vault_root) [
    | none ↦ old
    | some relative ↦ elim change.kind [
      | ChangeKind.deleted ↦ dropped k relative old
      | ChangeKind.renamed ↦
          let kept = dropped_source k change.previous_path old in
          elim (excluded_relative relative nested) [
            | true ↦ kept
            | false ↦ refreshed k change.path relative kept
          ]
      | _ ↦ refreshed k change.path relative old
    ]
  ]

  module _ (readable : IsReadable fs vault_root) where
    isolation :
        (path relative : FilePath) (log_prefix : String) (s : State)
        → ((extract_file_with_failure_isolation g fs path vault_root relative log_prefix s).0
            ≡ ok (extracted path))
          × ((extract_file_with_failure_isolation g fs path vault_root relative log_prefix
                s).1.cache
              ≡ s.cache)
    unfolding extract_file_with_failure_isolation report_failure sanitize_log_text extracted
    isolation path relative log_prefix s = ground (arith, readable.resolves)

    entry-set :
        (k : String) (relative : FilePath) (r : Extraction) (stamp : Option ℕ) (c : ExtractionCache)
        → lookup String-discrete k (set relative r stamp c).entries
          ≡ ite (String-discrete (str relative) k) (some r) (lookup String-discrete k c.entries)
    unfolding set
    entry-set k relative r none c = lookup-put String-discrete (str relative) k r c.entries
    entry-set k relative r (some t) c = lookup-put String-discrete (str relative) k r c.entries

    -- A part of the loop's body that ends well and changes the entries by `f`.
    record Refreshes (r : Result (Dict FilePath Extraction) × State)
        (f : String → Option Extraction) : Type 0 where
      results : Dict FilePath Extraction
      done : r.0 ≡ ok results
      view : (k : String) → entry k r.1 ≡ f k

    destination :
        (path relative : FilePath) (results : Dict FilePath Extraction) (s : State)
        → Refreshes
            (extract_destination g fs path vault_root relative results s)
            (λ k. refreshed k path relative (entry k s))
    unfolding extract_destination
    destination path relative results s = elim (Option-cases (extracted path)) [
      | inl failed ↦ record {
        results = results;
        done = ground (arith, isolation path relative "Extraction failed" s);
        view = λ k. ground (arith, isolation path relative "Extraction failed" s);
      }
      | inr (r, got) ↦ record {
        results = put FilePath-discrete relative r results;
        done = ground (arith, isolation path relative "Extraction failed" s, readable.stats path);
        view = λ k. ground (
          arith,
          isolation path relative "Extraction failed" s,
          readable.stats path,
          entry-set k relative r (readable.stamp path) s.cache,
        );
      }
    ]

    entry-drop :
        (k : String) (relative : FilePath) (s : State)
        → entry k (drop_cached g fs relative s).1 ≡ dropped k relative (entry k s)
    unfolding drop_cached delete
    entry-drop k relative s = lookup-remove String-discrete (str relative) k s.cache.entries

    -- A rename whose source is under the root, by whether its destination is excluded.
    rename :
        (path relative p previous : FilePath) (results : Dict FilePath Extraction) (s : State)
        → relative_to path vault_root ≡ some relative
        → relative_to p vault_root ≡ some previous
        → let c : FileChange = record {
          path = path;
          kind = ChangeKind.renamed;
          previous_path = some p;
        } in
          Refreshes
            (extract_change g fs nested vault_root c results s)
            (λ k. effect k (entry k s) c)
    unfolding extract_change drop_previous is_excluded effect
    rename path relative p previous results s under source =
        elim (Bool-cases (excluded_relative relative nested)) [
          | inl out ↦ record {
            results = results;
            done = ground (arith, under, source, out);
            view = λ k. ground (arith, under, source, out, entry-drop k previous s);
          }
          | inr in_scope ↦
              let s' = (drop_cached g fs previous s).1 in
              let d = destination path relative results s' in
              record {
                results = d.results;
                done = ground (arith, under, source, in_scope, d.done);
                view =
                    λ k. ground (arith, under, source, in_scope, d.view k, entry-drop k previous s);
              }
        ]

    change_by :
        (path relative : FilePath) (kind : ChangeKind) (previous_path : Option FilePath)
        (results : Dict FilePath Extraction) (s : State)
        → let c : FileChange = record { path = path; kind = kind; previous_path = previous_path } in
          relative_to path vault_root ≡ some relative
          → IsUnder vault_root c
          → Refreshes
              (extract_change g fs nested vault_root c results s)
              (λ k. effect k (entry k s) c)
    unfolding extract_change drop_cached delete effect
    change_by path relative ChangeKind.deleted q results s under ok_path = record {
      results = results;
      done = ground (arith, under);
      view = λ k. ground (arith, under, entry-drop k relative s);
    }
    change_by path relative ChangeKind.renamed none results s under ok_path =
        let (p, e, h) = ok_path.1 refl in absurd (cc)
    change_by path relative ChangeKind.renamed (some p₀) results s under ok_path =
        let (p, e, h) = ok_path.1 refl in
        elim (Option-cases (relative_to p₀ vault_root)) [
          | inl n ↦ absurd (h (cc))
          | inr (previous, source) ↦ rename path relative p₀ previous results s under source
        ]
    change_by path relative ChangeKind.created q results s under ok_path =
        let d = destination path relative results s in
        record {
          results = d.results;
          done = ground (arith, under, d.done);
          view = λ k. ground (arith, under, d.view k);
        }
    change_by path relative ChangeKind.modified q results s under ok_path =
        let d = destination path relative results s in
        record {
          results = d.results;
          done = ground (arith, under, d.done);
          view = λ k. ground (arith, under, d.view k);
        }

    change :
        (c : FileChange) (results : Dict FilePath Extraction) (s : State)
        → IsUnder vault_root c
        → Refreshes
            (extract_change g fs nested vault_root c results s)
            (λ k. effect k (entry k s) c)
    change c results s h = elim (Option-cases (relative_to c.path vault_root)) [
      | inl out ↦ absurd (h.0 out)
      | inr (relative, under) ↦ change_by c.path relative c.kind c.previous_path results s under h
    ]

    changes_lem :
        (cs : List FileChange) (results : Dict FilePath Extraction) (s : State)
        → All (IsUnder vault_root) cs
        → Refreshes
            (extract_changes g fs nested vault_root cs results s)
            (λ k. foldl (effect k) (entry k s) cs)
    unfolding extract_changes
    changes_lem [] results s h = record { results = results; done = refl; view = λ k. refl }
    changes_lem (c ∷ cs) results s h =
        let first = change c results s h.0 in
        let s' = (extract_change g fs nested vault_root c results s).1 in
        let rest = changes_lem cs first.results s' h.1 in
        record {
          results = rest.results;
          done = rw first.done rest.done;
          view = λ k. rw first.done (rest.view k ∙ ap (λ o. foldl (effect k) o cs) (first.view k));
        }

    -- In a readable environment, and for changes under the root, `extract_batch` never raises, whatever the
    -- extractors do, and the cache's entry at every key is what the changes make of it, one after another.
    pub extract_batch-effects :
        (batch : Batch) (s : State)
        → All (IsUnder vault_root) batch.changes
        → ((results : Dict FilePath Extraction) × ((extract_batch g fs nested vault_root batch s).0
              ≡ ok results))
          × ((k : String)
              → entry k (extract_batch g fs nested vault_root batch s).1
                ≡ foldl (effect k) (entry k s) batch.changes)
    unfolding extract_batch
    extract_batch-effects batch s h =
        let all = changes_lem batch.changes [] s h in ((all.results, all.done), all.view)
