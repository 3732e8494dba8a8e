-- ===== src/Vault/Exclusions/Laws.antt =====
-- What vault_compiler/exclusions.py lets through, against a description of the observed scope.
use graphify_daemon_portfoli.Prelude.{
  ◌≡◌, ◌≢◌, refl, ◌↔◌, ◌⊎◌, inl, inr, arith, false, some, List, [], ◌∷◌, ◌++◌, String, eq_iff, any,
  All, Option-cases,
}
use graphify_daemon_portfoli.Prelude.Exec.{ok}
use graphify_daemon_portfoli.Vault.Path.{FilePath, suffix, relative_to}
use graphify_daemon_portfoli.Vault.FileSystem.{FileSystem}
use graphify_daemon_portfoli.Vault.Exclusions.{
  is_excluded, excluded_relative, contains, excluded_dir_names, resolve_within_vault,
}

-- A path under a root is the root's parts followed by the relative path.
pub relative_to-append :
    (p root rest : FilePath) → relative_to p root ≡ some rest → p ≡ root ++ rest
unfolding relative_to
relative_to-append p [] rest h = ground arith
relative_to-append [] (r ∷ root) rest h = cc
relative_to-append (q ∷ p) (r ∷ root) rest h = ground (arith, relative_to-append p root rest)

pub append-relative_to : (root rest : FilePath) → relative_to (root ++ rest) root ≡ some rest
unfolding relative_to
append-relative_to [] rest = refl
append-relative_to (r ∷ root) rest = ground (arith, append-relative_to root rest)

-- `s` is none of the names.
abbrev pub IsNoneOf : List String → String → Type 0
IsNoneOf names s = All (λ n. s ≢ n) names

contains-false : (names : List String) (s : String) → contains names s ≡ false → IsNoneOf names s
contains-false [] s h = tt
contains-false (n ∷ names) s h = (ground (arith, eq_iff s n), contains-false names s (ground arith))

none_contains : (names : List String) (s : String) → IsNoneOf names s → contains names s ≡ false
none_contains [] s h = refl
none_contains (n ∷ names) s h = ground (arith, eq_iff s n, none_contains names s)

-- No part of the path has an excluded name.
parts_allowed :
    (names : List String) (p : FilePath) → any (contains names) p ≡ false → All (IsNoneOf names) p
parts_allowed names [] h = tt
parts_allowed names (part ∷ p) h =
    (contains-false names part (ground arith), parts_allowed names p (ground arith))

allowed_parts :
    (names : List String) (p : FilePath) → All (IsNoneOf names) p → any (contains names) p ≡ false
allowed_parts names [] h = refl
allowed_parts names (part ∷ p) h =
    ground (arith, none_contains names part h.0, allowed_parts names p h.1)

-- The observed scope: a Markdown or Python file, with no excluded directory on its way.
pub record InScope (relative : FilePath) (nested : List String) : Type 0 where
  pub observed : (suffix relative ≡ ".md") ⊎ (suffix relative ≡ ".py")
  pub allowed : All (IsNoneOf (excluded_dir_names ++ nested)) relative

in_scope :
    (relative : FilePath) (nested : List String)
    → excluded_relative relative nested ≡ false
    → InScope relative nested
in_scope relative nested h = record {
  observed = ground (arith, eq_iff (suffix relative) ".md", eq_iff (suffix relative) ".py");
  allowed = parts_allowed (excluded_dir_names ++ nested) relative (ground arith);
}

not_excluded :
    (relative : FilePath) (nested : List String)
    → InScope relative nested
    → excluded_relative relative nested ≡ false
not_excluded relative nested h = ground (
  arith,
  h.observed,
  eq_iff (suffix relative) ".md",
  eq_iff (suffix relative) ".py",
  allowed_parts (excluded_dir_names ++ nested) relative h.allowed,
)

-- A path under the root is let through exactly when it is in the observed scope.
pub is_excluded_iff :
    (root relative : FilePath) (nested : List String)
    → (is_excluded (root ++ relative) root nested ≡ ok false) ↔ InScope relative nested
unfolding is_excluded
is_excluded_iff root relative nested = (
  λ h. in_scope relative nested (ground (arith, append-relative_to root relative)),
  λ h. ground (arith, append-relative_to root relative, not_excluded relative nested h),
)

-- Vault confinement: for a path and a root that resolve, `resolve_within_vault` lets the path through, as
-- its real location, exactly when that lies under the real location of the root.
pub resolve_confined :
    (fs : FileSystem) (path root : FilePath) (p r : FilePath)
    → fs.resolve path ≡ ok p
    → fs.resolve root ≡ ok r
    → (resolve_within_vault fs path root ≡ ok (some p)) ↔ ((rest : FilePath) × (p ≡ r ++ rest))
unfolding resolve_within_vault
resolve_confined fs path root p r hp hr = (
  λ h. elim (Option-cases (relative_to p r)) [
    | inl gone ↦ absurd (ground arith)
    | inr (rest, found) ↦ (rest, relative_to-append p r rest found)
  ],
  λ (rest, e). ground (arith, append-relative_to r rest),
)
