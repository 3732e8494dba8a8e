-- ===== src/Lifecycle/Artifacts.antt =====
-- artifact_lifecycle/graph_artifacts.py and security.py: the artifacts on disk. A file that is written is
-- restricted to its owner in the same call; on another platform than POSIX its mode is not touched.
use graphify_daemon_portfoli.Prelude.{
  ℕ, suc, Bool, false, Option, none, some, List, [], ◌∷◌, ◌++◌, String, leb, if◌then◌else◌, map,
  length,
}
use graphify_daemon_portfoli.Prelude.Text.{Text, codes, show, join}
use graphify_daemon_portfoli.Graphify.{Communities, GodNode, Graphify}
use graphify_daemon_portfoli.Compiler.Snapshot.{GraphSnapshot}
use graphify_daemon_portfoli.Compiler.Extraction.{ExtractionCache}

-- The permission bits of a file or directory; `none`: as the system made it.
abbrev pub Mode : Type 0
Mode = Option ℕ

-- `restrict_to_owner`: 0o700 for a directory, 0o600 for a file, on POSIX.
unfoldable pub restrict_to_owner : Bool → Bool → Mode → Mode
restrict_to_owner is_posix is_dir mode =
    if is_posix then some (if is_dir then 0o700 else 0o600) else mode

-- A file on disk.
pub record Artifact (A : Type 0) : Type 0 where
  pub content : A
  pub mode : Mode

-- One item of `sorted(community_map.items())`; community ids are distinct.
unfoldable pub insert_community : ℕ → List String → Communities → Communities
insert_community cid nodes [] = (cid, nodes) ∷ []
insert_community cid nodes ((d, ms) ∷ m) =
    if leb cid d then (cid, nodes) ∷ (d, ms) ∷ m else (d, ms) ∷ insert_community cid nodes m

unfoldable pub sorted_communities : Communities → Communities
unfolding insert_community
sorted_communities [] = []
sorted_communities ((cid, nodes) ∷ m) = insert_community cid nodes (sorted_communities m)

abbrev newline : Text
newline = b'\n' ∷ []

module _ (g : Graphify) where
  open g use {Graph, number_of_nodes, number_of_edges, god_nodes, has_index, without_index}

  -- `graph.json`: the graph without the warmed index, and the communities
  pub record GraphJson : Type 0 where
    pub graph : Graph
    pub community_map : Communities

  -- The daemon's output directory.
  pub record Disk : Type 0 where
    pub is_posix : Bool
    pub graph_json : Option (Artifact GraphJson)
    pub knowledge_md : Option (Artifact Text)
    pub graph_cache_json : Option (Artifact ExtractionCache)

  abbrev write : {A : Type 0} → Bool → A → Option (Artifact A)
  write posix content =
      some (record { content = content; mode = restrict_to_owner posix false none })

  -- The graph that is written: a copy without the warmed index, if the graph has one.
  abbrev stripped : Graph → Graph
  stripped graph = if has_index graph then without_index graph else graph

  unfoldable pub write_graph_json : GraphSnapshot g → Disk → Disk
  unfolding restrict_to_owner
  write_graph_json s d = record d {
    graph_json =
        write d.is_posix (record { graph = stripped s.graph; community_map = s.community_map });
  }

  abbrev god_lines : ℕ → List GodNode → List Text
  god_lines i [] = []
  god_lines i (n ∷ ns) =
      (show i ++ codes ". " ++ n.label ++ codes " (" ++ show n.degree ++ codes " edges)")
      ∷ god_lines (suc i) ns

  abbrev community_line : (ℕ × List String) → Text
  community_line c =
      codes "- Community " ++ show c.0 ++ codes ": " ++ show (length c.1) ++ codes " nodes"

  unfoldable pub generate_knowledge_md : GraphSnapshot g → Text
  unfolding show join sorted_communities
  generate_knowledge_md s =
      let head =
        codes "# Knowledge Graph Summary"
        ∷ []
        ∷ (codes "- Snapshot version: " ++ show s.version)
        ∷ (codes "- Nodes: " ++ show (number_of_nodes s.graph))
        ∷ (codes "- Edges: " ++ show (number_of_edges s.graph))
        ∷ (codes "- Communities: " ++ show (length s.community_map))
        ∷ []
        ∷ codes "## God nodes"
        ∷ []
        ∷ [] in
      let lines =
        head
        ++ god_lines 1 (god_nodes s.graph 10)
        ++ ([] ∷ codes "## Communities" ∷ [] ∷ [])
        ++ map community_line (sorted_communities s.community_map) in
      join newline lines ++ newline

  unfoldable pub write_knowledge_md : GraphSnapshot g → Disk → Disk
  unfolding generate_knowledge_md restrict_to_owner
  write_knowledge_md s d = record d { knowledge_md = write d.is_posix (generate_knowledge_md s) }

  -- `ExtractionCache.save(cache_path)`
  unfoldable pub save_cache : ExtractionCache → Disk → Disk
  unfolding restrict_to_owner
  save_cache c d = record d { graph_cache_json = write d.is_posix c }

  -- Both snapshot artifacts, if there is a snapshot.
  abbrev pub write_current : Option (GraphSnapshot g) → Disk → Disk
  write_current none d = d
  write_current (some s) d = write_knowledge_md s (write_graph_json s d)
