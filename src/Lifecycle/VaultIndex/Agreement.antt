-- ===== src/Lifecycle/VaultIndex/Agreement.antt =====
-- The extraction cache (vault_compiler/extraction.py) and the index (artifact_lifecycle/vault_index.py)
-- after one batch has gone through `extract_batch` and then `sync_batch`, as `_compile_batch` of
-- daemon.py does.
use mathlib.Core.List.{foldl}
use graphify_daemon_portfoli.Prelude.{
  ◌≡◌, refl, sym, ◌∙◌, ◌⊎◌, inl, inr, true, Option, none, some, List, [], ◌∷◌, String,
  String-discrete, ite, All, subst, Bool-cases, Option-cases,
}
use graphify_daemon_portfoli.Prelude.Dict.{lookup}
use graphify_daemon_portfoli.Prelude.Exec.{ok}
use graphify_daemon_portfoli.Vault.Path.{FilePath, relative_to, str}
use graphify_daemon_portfoli.Vault.FileSystem.{FileSystem}
use graphify_daemon_portfoli.Vault.Exclusions.{excluded_relative}
use graphify_daemon_portfoli.Vault.Batching.{ChangeKind, FileChange, Batch}
use graphify_daemon_portfoli.Graphify.{Extraction, Graphify}
use graphify_daemon_portfoli.Compiler.Extraction
use graphify_daemon_portfoli.Compiler.Extraction.{ExtractionCache, State, extract_batch}
use graphify_daemon_portfoli.Compiler.Extraction.Laws.{
  IsUnder, IsReadable, entry, effect, refreshed, dropped, dropped_source, extract_batch-effects,
}
use graphify_daemon_portfoli.Lifecycle.VaultIndex.{Row, Connection, count_of, sync_batch}
use graphify_daemon_portfoli.Lifecycle.VaultIndex.Laws.{
  IsIndexable, row_effect, written, cleared, cleared_source, fresh_row, sync_batch-effects,
}

-- A row counts the nodes and edges of a cached extraction.
abbrev pub Counts : Row → Option Extraction → Type 0
Counts row o =
    (count_of (λ r. r.nodes) o ≡ ok row.node_count)
    × (count_of (λ r. r.edges) o ≡ ok row.edge_count)

-- At one key: a cached file has a row, and the row counts what is cached.
abbrev pub Agrees : Option Extraction → Option Row → Type 0
Agrees e none = e ≡ none
Agrees e (some row) = Counts row e

from_Agrees :
    (e : Option Extraction) (row : Option Row)
    → Agrees e row
    → (row ≡ none → e ≡ none) × ((r : Row) → row ≡ some r → Counts r e)
from_Agrees e none h = (λ p. h, λ r p. absurd (cc))
from_Agrees e (some row) h = (λ p. absurd (cc), λ r p. (cc h.0, cc h.1))

to_Agrees :
    (e : Option Extraction) (row : Option Row)
    → (row ≡ none → e ≡ none)
    → ((r : Row) → row ≡ some r → Counts r e)
    → Agrees e row
to_Agrees e none h k = h refl
to_Agrees e (some row) h k = k row refl

module _ (g : Graphify) (fs : FileSystem) (cache : ExtractionCache) (vault_root : FilePath)
    (nested : List String) (able : IsIndexable fs cache) (k : String) where
  -- During the batch a row counts what is cached in the end, or what is cached now.
  Follows : Option Extraction → Option Row → Type 0
  Follows e row =
      (row ≡ none → e ≡ none)
      × ((r : Row) → row ≡ some r → Counts r (lookup String-discrete k cache.entries) ⊎ Counts r e)

  Follows-ite :
      {P : Type 0} (d : Dec P) (a e : Option Extraction) (b row : Option Row)
      → (P → Follows a b)
      → Follows e row
      → Follows (ite d a e) (ite d b row)
  Follows-ite (yes p) a e b row then_case else_case = then_case p
  Follows-ite (no n) a e b row then_case else_case = else_case

  -- A fresh row counts what is cached in the end.
  Follows-fresh :
      (path relative : FilePath) (e : Option Extraction)
      → str relative ≡ k
      → Follows e (some (fresh_row fs cache vault_root nested able path relative))
  unfolding Follows Extraction.get
  Follows-fresh path relative e same = (
    λ h. absurd (cc),
    λ r h. inl (
      subst
          (λ j. count_of (λ r. r.nodes) (lookup String-discrete j cache.entries) ≡ ok r.node_count)
          same (cc (able.counts_nodes relative)),
      subst
          (λ j. count_of (λ r. r.edges) (lookup String-discrete j cache.entries) ≡ ok r.edge_count)
          same (cc (able.counts_edges relative)),
    ),
  )

  Follows-none : Follows none none
  unfolding Follows
  Follows-none = (λ h. refl, λ r h. absurd (cc))

  Follows-refreshed :
      (path relative : FilePath) (e : Option Extraction) (row : Option Row)
      → Follows e row
      → Follows
          (refreshed g fs vault_root nested k path relative e)
          (written fs cache vault_root nested able k path relative row)
  Follows-refreshed path relative e row h =
      Follows-ite (String-discrete (str relative) k) _ _ _ _
        (λ same. Follows-fresh path relative _ same) h

  Follows-dropped :
      (relative : FilePath) (e : Option Extraction) (row : Option Row)
      → Follows e row
      → Follows
          (dropped g fs vault_root nested k relative e)
          (cleared fs cache vault_root nested able k relative row)
  Follows-dropped relative e row h =
      Follows-ite (String-discrete (str relative) k) _ _ _ _ (λ same. Follows-none) h

  Follows-source :
      (q : Option FilePath) (e : Option Extraction) (row : Option Row)
      → Follows e row
      → Follows
          (dropped_source g fs vault_root nested k q e)
          (cleared_source fs cache vault_root nested able k q row)
  Follows-source none e row h = h
  Follows-source (some p) e row h =
      elim (relative_to p vault_root)
        as (λ o.
          Follows
            (elim o [ none ↦ e | some previous ↦ dropped g fs vault_root nested k previous e ])
            (elim o [
              | none ↦ row
              | some previous ↦ cleared fs cache vault_root nested able k previous row
            ])) [ none ↦ h | some previous ↦ Follows-dropped previous e row h ]

  effects_by :
      (path relative : FilePath) (kind : ChangeKind) (q : Option FilePath) (e : Option Extraction)
      (row : Option Row)
      → relative_to path vault_root ≡ some relative
      → Follows e row
      → let c : FileChange = record { path = path; kind = kind; previous_path = q } in
        Follows
          (effect g fs vault_root nested k e c)
          (row_effect fs cache vault_root nested able k row c)
  unfolding effect row_effect
  effects_by path relative ChangeKind.deleted q e row under h =
      rw (under, effect, row_effect) (Follows-dropped relative e row h)
  effects_by path relative ChangeKind.created q e row under h =
      rw (under, effect, row_effect) (Follows-refreshed path relative e row h)
  effects_by path relative ChangeKind.modified q e row under h =
      rw (under, effect, row_effect) (Follows-refreshed path relative e row h)
  effects_by path relative ChangeKind.renamed q e row under h =
      elim (Bool-cases (excluded_relative relative nested)) [
        | inl out ↦ rw (under, effect, row_effect) (rw out (Follows-source q e row h))
        | inr in_scope ↦
            rw (under, effect, row_effect)
              (rw in_scope (
                Follows-refreshed path relative (dropped_source g fs vault_root nested k q e)
                  (cleared_source fs cache vault_root nested able k q row)
                  (Follows-source q e row h)))
      ]

  effects :
      (c : FileChange) (e : Option Extraction) (row : Option Row)
      → Follows e row
      → Follows
          (effect g fs vault_root nested k e c)
          (row_effect fs cache vault_root nested able k row c)
  unfolding effect row_effect
  effects c e row h = elim (Option-cases (relative_to c.path vault_root)) [
    | inl out ↦ rw (out, effect, row_effect) h
    | inr (relative, under) ↦ effects_by c.path relative c.kind c.previous_path e row under h
  ]

  effects_all :
      (cs : List FileChange) (e : Option Extraction) (row : Option Row)
      → Follows e row
      → Follows
          (foldl (effect g fs vault_root nested k) e cs)
          (foldl (row_effect fs cache vault_root nested able k) row cs)
  effects_all [] e row h = h
  effects_all (c ∷ cs) e row h =
      effects_all cs (effect g fs vault_root nested k e c)
        (row_effect fs cache vault_root nested able k row c) (effects c e row h)

  -- At the end, what is cached now is what is cached in the end.
  agree :
      (cs : List FileChange) (e : Option Extraction) (row : Option Row)
      → Agrees e row
      → foldl (effect g fs vault_root nested k) e cs ≡ lookup String-discrete k cache.entries
      → Agrees
          (lookup String-discrete k cache.entries)
          (foldl (row_effect fs cache vault_root nested able k) row cs)
  unfolding Follows
  agree cs e row h final =
      let before = from_Agrees e row h in
      let f = effects_all cs e row (before.0, λ r p. inr (before.1 r p)) in
      to_Agrees (lookup String-discrete k cache.entries)
        (foldl (row_effect fs cache vault_root nested able k) row cs) (λ p. sym final ∙ f.0 p)
        (λ r p. elim (f.1 r p) [ inl c ↦ c | inr c ↦ subst (Counts r) final c ])

-- One batch through the cache and then through the index, as the daemon compiles it, for changes under
-- the root, an open connection, a readable environment and indexable extractions: if at a key the
-- cache and the index agreed before, they agree after. They agree if a row counts the nodes and edges
-- that are cached, and nothing is cached where there is no row.
pub compile_keeps_agreement :
    (g : Graphify) (fs : FileSystem) (nested : List String) (vault_root : FilePath) (batch : Batch)
    (s : State) (conn : Connection) (k : String)
    → IsReadable fs vault_root
    → All (IsUnder vault_root) batch.changes
    → conn.is_open ≡ true
    → let cache = (extract_batch g fs nested vault_root batch s).1.cache in
      IsIndexable fs cache
      → Agrees (entry k s) (lookup String-discrete k conn.files)
      → Agrees
          (lookup String-discrete k cache.entries)
          (lookup String-discrete k (sync_batch fs cache nested vault_root batch conn).1.files)
compile_keeps_agreement g fs nested vault_root batch s conn k readable under opened able before =
    let cache = (extract_batch g fs nested vault_root batch s).1.cache in
    let extracts = extract_batch-effects g fs vault_root nested readable batch s under in
    let syncs = sync_batch-effects fs cache vault_root nested able batch conn.files under in
    subst
      (λ b. Agrees (lookup String-discrete k cache.entries) (
        lookup String-discrete k
          (sync_batch fs cache nested vault_root batch
            (record { is_open = b; files = conn.files })).1.files))
      (sym opened)
      (subst (Agrees (lookup String-discrete k cache.entries)) (sym (syncs.1 k)) (
        agree g fs cache vault_root nested able k batch.changes (entry k s)
          (lookup String-discrete k conn.files) before (sym (extracts.1 k))))
