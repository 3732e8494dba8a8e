-- ===== src/Vault/Exclusions.antt =====
-- vault_compiler/exclusions.py: what never enters a batch.
pub mod Laws
pub mod Sanitize
use graphify_daemon_portfoli.Prelude.{
  ℕ, Bool, true, false, not, ◌||◌, Option, none, some, List, [], ◌∷◌, ◌++◌, String, str_eq,
  if◌then◌else◌, any,
}
use graphify_daemon_portfoli.Prelude.Exec.{Result, ok, raise, value_error}
use graphify_daemon_portfoli.Prelude.Text.{Text, codes, replace}
use graphify_daemon_portfoli.Vault.Path.{FilePath, suffix, relative_to, str}
use graphify_daemon_portfoli.Vault.FileSystem.{FileSystem}

-- `name in names`
abbrev pub contains : List String → String → Bool
contains names s = any (str_eq s) names

abbrev pub excluded_dir_names : List String
excluded_dir_names = ".obsidian" ∷ ".trash" ∷ "node_modules" ∷ ".git" ∷ "__pycache__" ∷ []

abbrev pub observed_suffixes : List String
observed_suffixes = ".md" ∷ ".py" ∷ []

-- The tests of `is_excluded` on the relative path.
abbrev pub excluded_relative : FilePath → List String → Bool
excluded_relative relative nested_repo_names =
    if not (contains observed_suffixes (suffix relative))
    then true
    else any (contains (excluded_dir_names ++ nested_repo_names)) relative

-- `is_excluded`: it raises if the path is not under the root.
unfoldable pub is_excluded : FilePath → FilePath → List String → Result Bool
is_excluded path vault_root nested_repo_names = elim (relative_to path vault_root) [
  | none ↦ raise value_error
  | some relative ↦ ok (excluded_relative relative nested_repo_names)
]

module _ (fs : FileSystem) where
  -- `resolve_within_vault`: the resolved path, if it lies under the resolved root.
  unfoldable pub resolve_within_vault : FilePath → FilePath → Result (Option FilePath)
  resolve_within_vault path vault_root = elim (fs.resolve vault_root) [
    | raise e ↦ raise e
    | ok resolved_root ↦ elim (fs.resolve path) [
      | raise e ↦ raise e
      | ok resolved_path ↦ elim (relative_to resolved_path resolved_root) [
        | none ↦ ok none
        | some _ ↦ ok (some resolved_path)
      ]
    ]
  ]

  -- `sanitize_log_text`
  unfoldable pub sanitize_log_text : Text → FilePath → Result Text
  sanitize_log_text text vault_root = elim (fs.resolve vault_root) [
    | raise e ↦ raise e
    | ok resolved_root ↦ ok (
        replace (codes (str vault_root)) (codes "<vault>")
          (replace (codes (str resolved_root)) (codes "<vault>") text))
  ]
