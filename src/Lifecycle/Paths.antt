-- ===== src/Lifecycle/Paths.antt =====
-- paths.py: where the daemon writes.
use graphify_daemon_portfoli.Prelude.{
  ◌≡◌, ◌≢◌, refl, sym, ap, ◌∙◌, String, Option, none, some, [], ◌∷◌, ◌++◌,
}
use graphify_daemon_portfoli.Vault.Path.{FilePath}

-- `DaemonPaths`
pub record DaemonPaths : Type 0 where
  pub output_dir : FilePath

unfoldable pub vault_index_db : DaemonPaths → FilePath
vault_index_db paths = paths.output_dir ++ "vault_index.db" ∷ []

unfoldable pub graph_json : DaemonPaths → FilePath
graph_json paths = paths.output_dir ++ "graph.json" ∷ []

unfoldable pub knowledge_md : DaemonPaths → FilePath
knowledge_md paths = paths.output_dir ++ "KNOWLEDGE.md" ∷ []

unfoldable pub graph_cache_json : DaemonPaths → FilePath
graph_cache_json paths = paths.output_dir ++ "graph_cache.json" ∷ []

-- The last part of a path.
abbrev last_part : FilePath → Option String
last_part [] = none
last_part (p ∷ []) = some p
last_part (p ∷ q ∷ ps) = last_part (q ∷ ps)

last_part-child : (dir : FilePath) (name : String) → last_part (dir ++ name ∷ []) ≡ some name
last_part-child [] name = refl
last_part-child (p ∷ []) name = refl
last_part-child (p ∷ q ∷ ps) name = last_part-child (q ∷ ps) name

-- Two names in one directory are two paths.
different : (dir : FilePath) (m n : String) → some m ≢ some n → dir ++ m ∷ [] ≢ dir ++ n ∷ []
different dir m n h e = h (sym (last_part-child dir m) ∙ ap last_part e ∙ last_part-child dir n)

-- No artifact is written over another one, whatever the output directory is.
artifacts_apart :
    (paths : DaemonPaths)
    → (graph_json paths ≢ knowledge_md paths)
      × (graph_json paths ≢ graph_cache_json paths)
      × (graph_json paths ≢ vault_index_db paths)
      × (knowledge_md paths ≢ graph_cache_json paths)
      × (knowledge_md paths ≢ vault_index_db paths)
      × (graph_cache_json paths ≢ vault_index_db paths)
unfolding graph_json knowledge_md graph_cache_json vault_index_db
artifacts_apart paths = (
  different paths.output_dir "graph.json" "KNOWLEDGE.md" (λ e. cc),
  different paths.output_dir "graph.json" "graph_cache.json" (λ e. cc),
  different paths.output_dir "graph.json" "vault_index.db" (λ e. cc),
  different paths.output_dir "KNOWLEDGE.md" "graph_cache.json" (λ e. cc),
  different paths.output_dir "KNOWLEDGE.md" "vault_index.db" (λ e. cc),
  different paths.output_dir "graph_cache.json" "vault_index.db" (λ e. cc),
)
