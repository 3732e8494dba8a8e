-- ===== src/Compiler/Snapshot.antt =====
-- vault_compiler/snapshot.py: immutable snapshots, their version, and the holder's one reference.
use graphify_daemon_portfoli.Prelude.{
  ℕ, ◌+◌, ◌<◌, arith, Option, none, some, List, [], ◌∷◌, ◌++◌, String,
}
use graphify_daemon_portfoli.Prelude.Exec.{Result}
use graphify_daemon_portfoli.Graphify.{Attrs, Extraction, Communities, Graphify}
use graphify_daemon_portfoli.Compiler.Extraction.{ExtractionCache}
use mathlib.Core.Option

-- The values of a cache's entries, their nodes and their edges merged.
abbrev pub nodes_of : List (String × Extraction) → List Attrs
nodes_of [] = []
nodes_of ((k, r) ∷ es) = Option.get_or r.nodes [] ++ nodes_of es

abbrev pub edges_of : List (String × Extraction) → List Attrs
edges_of [] = []
edges_of ((k, r) ∷ es) = Option.get_or r.edges [] ++ edges_of es

module _ (g : Graphify) where
  open g use {Graph, TrigramIndex, build_from_json, get_trigram_index}

  pub record GraphSnapshot : Type 0 where
    pub graph : Graph
    pub trigram_index : TrigramIndex
    pub community_map : Communities
    pub version : ℕ

  unfoldable pub build_graph : ExtractionCache → Result Graph
  build_graph cache = build_from_json (nodes_of cache.entries) (edges_of cache.entries)

  pub record SnapshotHolder : Type 0 where
    pub current : Option GraphSnapshot
    pub next_version : ℕ

  unfoldable pub new_holder : SnapshotHolder
  new_holder = record { current = none; next_version = 1 }

  -- The snapshot is complete, its index warmed, before the one assignment to `_current`.
  unfoldable pub publish : Graph → Communities → SnapshotHolder → GraphSnapshot × SnapshotHolder
  publish graph community_map h =
      let (index, warmed) = get_trigram_index graph in
      let snapshot : GraphSnapshot = record {
        graph = warmed;
        trigram_index = index;
        community_map = community_map;
        version = h.next_version;
      } in
      (snapshot, record { current = some snapshot; next_version = h.next_version + 1 })

  -- Publications in turn.
  unfoldable pub publish_all : List (Graph × Communities) → SnapshotHolder → SnapshotHolder
  publish_all [] h = h
  publish_all ((graph, communities) ∷ rest) h = publish_all rest (publish graph communities h).1

  -- The version of the served snapshot; 0 stands for none.
  abbrev pub current_version : Option GraphSnapshot → ℕ
  current_version none = 0
  current_version (some s) = s.version

  -- The served snapshot is older than the next one.
  abbrev pub IsFresh : SnapshotHolder → Type 0
  IsFresh h = current_version h.current < h.next_version

  pub publish-IsFresh :
      (graph : Graph) (m : Communities) (h : SnapshotHolder) → IsFresh (publish graph m h).1
  unfolding publish
  publish-IsFresh graph m h = omega arith

  -- If the served version is below the next one, any publications, at least one, raise the served
  -- version.
  versions_increase :
      (ps : List (Graph × Communities)) (p : Graph × Communities) (h : SnapshotHolder)
      → IsFresh h
      → current_version h.current < current_version (publish_all (p ∷ ps) h).current
  unfolding publish_all publish
  versions_increase [] p h f = f
  versions_increase (q ∷ ps) p h f =
      omega (arith, versions_increase ps q (publish p.0 p.1 h).1 (publish-IsFresh p.0 p.1 h))
