-- ===== src/Lifecycle/VaultIndex/Laws.antt =====
-- artifact_lifecycle/vault_index.py: what `sync_batch` makes of the table, key by key.
use mathlib.Core.List.{foldl}
use graphify_daemon_portfoli.Prelude.{
  ℕ, ◌≡◌, refl, ap, ◌∙◌, arith, true, false, Option, none, some, List, [], ◌∷◌, String,
  String-discrete, ite, All, Option-cases, Bool-cases, inl, inr,
}
use graphify_daemon_portfoli.Prelude.Dict.{lookup, lookup-put, lookup-remove}
use graphify_daemon_portfoli.Prelude.Exec.{Error, Result, ok, raise}
use graphify_daemon_portfoli.Vault.Path.{FilePath, relative_to, str}
use graphify_daemon_portfoli.Vault.FileSystem.{FileSystem, Stat}
use graphify_daemon_portfoli.Vault.Exclusions.{is_excluded, excluded_relative}
use graphify_daemon_portfoli.Vault.Batching.{ChangeKind, FileChange, Batch}
use graphify_daemon_portfoli.Compiler.Extraction
use graphify_daemon_portfoli.Compiler.Extraction.{ExtractionCache}
use graphify_daemon_portfoli.Compiler.Extraction.Laws.{IsUnder}
use graphify_daemon_portfoli.Lifecycle.VaultIndex.{
  Row, Table, Connection, count_of, stat_or_zero, delete_row, upsert, delete_previous, sync_change,
  sync_changes, sync_batch,
}

-- A failed `sync_batch`, whatever made it fail, leaves the table as it was.
sync_batch_rolls_back :
    (fs : FileSystem) (cache : ExtractionCache) (nested : List String) (vault_root : FilePath)
    (batch : Batch) (conn : Connection) (e : Error)
    → (sync_batch fs cache nested vault_root batch conn).0 ≡ raise e
    → (sync_batch fs cache nested vault_root batch conn).1 ≡ conn
unfolding sync_batch
sync_batch_rolls_back fs cache nested vault_root batch conn e h = ground arith

-- What lets a batch be indexed to its end: the cached extractions have their nodes and edges, and a stat
-- fails at most because the file is not there.
pub record IsIndexable (fs : FileSystem) (cache : ExtractionCache) : Type 0 where
  pub nodes : FilePath → ℕ
  pub edges : FilePath → ℕ
  pub stat : FilePath → Stat
  pub counts_nodes :
      (p : FilePath) → count_of (λ r. r.nodes) (Extraction.get p cache) ≡ ok (nodes p)
  pub counts_edges :
      (p : FilePath) → count_of (λ r. r.edges) (Extraction.get p cache) ≡ ok (edges p)
  pub stats : (p : FilePath) → stat_or_zero fs p ≡ ok (stat p)

module _ (fs : FileSystem) (cache : ExtractionCache) (vault_root : FilePath) (nested : List String)
    (able : IsIndexable fs cache) where
  -- The row that an upsert writes.
  abbrev pub fresh_row : FilePath → FilePath → Row
  fresh_row path relative = record {
    mtime = (able.stat path).mtime;
    size = (able.stat path).size;
    node_count = able.nodes relative;
    edge_count = able.edges relative;
  }

  abbrev pub written : String → FilePath → FilePath → Option Row → Option Row
  written k path relative old =
      ite (String-discrete (str relative) k) (some (fresh_row path relative)) old

  abbrev pub cleared : String → FilePath → Option Row → Option Row
  cleared k relative old = ite (String-discrete (str relative) k) none old

  abbrev pub cleared_source : String → Option FilePath → Option Row → Option Row
  cleared_source k none old = old
  cleared_source k (some p) old = elim (relative_to p vault_root) [
    | none ↦ old
    | some previous ↦ cleared k previous old
  ]

  -- The specification of one change at one key.
  unfoldable pub row_effect : String → Option Row → FileChange → Option Row
  row_effect k old change = elim (relative_to change.path vault_root) [
    | none ↦ old
    | some relative ↦ elim change.kind [
      | ChangeKind.deleted ↦ cleared k relative old
      | ChangeKind.renamed ↦
          let kept = cleared_source k change.previous_path old in
          elim (excluded_relative relative nested) [
            | true ↦ kept
            | false ↦ written k change.path relative kept
          ]
      | _ ↦ written k change.path relative old
    ]
  ]

  record Writes (r : Result (Unit {0}) × Table) (f : String → Option Row) : Type 0 where
    done : r.0 ≡ ok tt
    view : (k : String) → lookup String-discrete k r.1 ≡ f k

  upsert-Writes :
      (path relative : FilePath) (t : Table)
      → Writes
          (upsert fs cache path relative t)
          (λ k. written k path relative (lookup String-discrete k t))
  unfolding upsert
  upsert-Writes path relative t = record {
    done = ground (arith, able.counts_nodes relative, able.counts_edges relative, able.stats path);
    view = λ k. ground (
      arith,
      able.counts_nodes relative,
      able.counts_edges relative,
      able.stats path,
      lookup-put String-discrete (str relative) k (fresh_row path relative) t,
    );
  }

  cleared-view :
      (k : String) (relative : FilePath) (t : Table)
      → lookup String-discrete k (delete_row relative t).1
        ≡ cleared k relative (lookup String-discrete k t)
  unfolding delete_row
  cleared-view k relative t = lookup-remove String-discrete (str relative) k t

  rename :
      (path relative p previous : FilePath) (t : Table)
      → relative_to path vault_root ≡ some relative
      → relative_to p vault_root ≡ some previous
      → let c : FileChange = record {
        path = path;
        kind = ChangeKind.renamed;
        previous_path = some p;
      } in
        Writes
          (sync_change fs cache nested vault_root c t)
          (λ k. row_effect k (lookup String-discrete k t) c)
  unfolding sync_change delete_previous is_excluded row_effect
  rename path relative p previous t under source =
      elim (Bool-cases (excluded_relative relative nested)) [
        | inl out ↦ record {
          done = ground (arith, under, source, out);
          view = λ k. ground (arith, under, source, out, cleared-view k previous t);
        }
        | inr in_scope ↦
            let d = upsert-Writes path relative (delete_row previous t).1 in
            record {
              done = ground (arith, under, source, in_scope, d.done);
              view =
                  λ k. ground (arith, under, source, in_scope, d.view k, cleared-view k previous t);
            }
      ]

  change_by :
      (path relative : FilePath) (kind : ChangeKind) (previous_path : Option FilePath) (t : Table)
      → let c : FileChange = record { path = path; kind = kind; previous_path = previous_path } in
        relative_to path vault_root ≡ some relative
        → IsUnder vault_root c
        → Writes
            (sync_change fs cache nested vault_root c t)
            (λ k. row_effect k (lookup String-discrete k t) c)
  unfolding sync_change delete_row row_effect
  change_by path relative ChangeKind.deleted q t under ok_path = record {
    done = ground (arith, under);
    view = λ k. ground (arith, under, cleared-view k relative t);
  }
  change_by path relative ChangeKind.renamed none t under ok_path =
      let (p, e, h) = ok_path.1 refl in absurd (cc)
  change_by path relative ChangeKind.renamed (some p₀) t under ok_path =
      let (p, e, h) = ok_path.1 refl in
      elim (Option-cases (relative_to p₀ vault_root)) [
        | inl n ↦ absurd (h (cc))
        | inr (previous, source) ↦ rename path relative p₀ previous t under source
      ]
  change_by path relative ChangeKind.created q t under ok_path =
      let d = upsert-Writes path relative t in
      record { done = ground (arith, under, d.done); view = λ k. ground (arith, under, d.view k) }
  change_by path relative ChangeKind.modified q t under ok_path =
      let d = upsert-Writes path relative t in
      record { done = ground (arith, under, d.done); view = λ k. ground (arith, under, d.view k) }

  change :
      (c : FileChange) (t : Table)
      → IsUnder vault_root c
      → Writes
          (sync_change fs cache nested vault_root c t)
          (λ k. row_effect k (lookup String-discrete k t) c)
  change c t h = elim (Option-cases (relative_to c.path vault_root)) [
    | inl out ↦ absurd (h.0 out)
    | inr (relative, under) ↦ change_by c.path relative c.kind c.previous_path t under h
  ]

  changes_lem :
      (cs : List FileChange) (t : Table)
      → All (IsUnder vault_root) cs
      → Writes
          (sync_changes fs cache nested vault_root cs t)
          (λ k. foldl (row_effect k) (lookup String-discrete k t) cs)
  unfolding sync_changes
  changes_lem [] t h = record { done = refl; view = λ k. refl }
  changes_lem (c ∷ cs) t h =
      let first = change c t h.0 in
      let t' = (sync_change fs cache nested vault_root c t).1 in
      let rest = changes_lem cs t' h.1 in
      record {
        done = rw first.done rest.done;
        view =
            λ k. rw first.done (rest.view k ∙ ap (λ o. foldl (row_effect k) o cs) (first.view k));
      }

  -- On an open connection, with indexable extractions and changes under the root, `sync_batch` never
  -- raises, and the row at every key is what the changes make of it, one after another.
  pub sync_batch-effects :
      (batch : Batch) (t : Table)
      → All (IsUnder vault_root) batch.changes
      → let conn : Connection = record { is_open = true; files = t } in
        ((sync_batch fs cache nested vault_root batch conn).0 ≡ ok tt)
        × ((k : String)
            → lookup String-discrete k (sync_batch fs cache nested vault_root batch conn).1.files
              ≡ foldl (row_effect k) (lookup String-discrete k t) batch.changes)
  unfolding sync_batch
  sync_batch-effects batch t h =
      let all = changes_lem batch.changes t h in
      (ground (arith, all.done), λ k. ground (arith, all.done, all.view k))
