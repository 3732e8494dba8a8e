-- ===== src/Graphify.antt =====
-- The third-party code that the daemon calls: graphify's extractors, builder, clustering and query
-- functions, and networkx's graphs. It is not in the repository, so it is one record of parameters; the
-- sources call it through src/graphify_daemon/adapters/graphify_query.py and by direct imports.
use graphify_daemon_portfoli.Prelude.{ℕ, Bool, Option, List, String}
use graphify_daemon_portfoli.Prelude.Dict.{Dict}
use graphify_daemon_portfoli.Prelude.Exec.{Error, Result}
use graphify_daemon_portfoli.Prelude.Text.{Text, Value}
use graphify_daemon_portfoli.Vault.Path.{FilePath}
use graphify_daemon_portfoli.Vault.FileSystem.{FileSystem}

-- The attributes of a node or an edge.
abbrev pub Attrs : Type 0
Attrs = Dict String Value

-- The dictionary that an extractor returns; an absent key is `none`, and `other_keys` are the rest.
pub record Extraction : Type 0 where
  pub nodes : Option (List Attrs)
  pub edges : Option (List Attrs)
  pub error : Option String
  pub other_keys : List String

-- A community map.
abbrev pub Communities : Type 0
Communities = Dict ℕ (List String)

-- A node's label and its number of edges, as `god_nodes` reports them.
pub record GodNode : Type 0 where
  pub label : Text
  pub degree : ℕ

pub record Graphify : Type 1 where
  pub Graph : Type 0
  pub TrigramIndex : Type 0
  -- `str(exc)`
  pub str_exc : Error → Text
  pub extract_markdown : FileSystem → FilePath → Result Extraction
  pub extract_python : FileSystem → FilePath → Result Extraction
  -- `build_from_json({"nodes": …, "edges": …}, directed=True)`
  pub build_from_json : List Attrs → List Attrs → Result Graph
  -- the index, and the graph, which keeps the index among its attributes
  pub get_trigram_index : Graph → TrigramIndex × Graph
  -- `graph.copy()` without the kept index
  pub without_index : Graph → Graph
  pub has_index : Graph → Bool
  pub cluster : Graph → Result Communities
  pub remap_communities_to_previous : Communities → Dict String ℕ → Communities
  pub number_of_nodes : Graph → ℕ
  pub number_of_edges : Graph → ℕ
  pub god_nodes : Graph → ℕ → List GodNode
