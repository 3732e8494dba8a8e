-- ===== src/Lifecycle/ColdStart/Laws.antt =====
-- artifact_lifecycle/cold_start.py: what reconciliation keeps of the cache, and when the daemon is ready.
use graphify_daemon_portfoli.Prelude.{
  ◌≡◌, refl, ap, ◌∙◌, arith, Bool, true, false, not, ◌&&◌, none, some, List, [], ◌∷◌, String,
  str_eq, eq_iff, String-discrete, if◌then◌else◌, map, any, All, Bool-cases, Option-cases, inl, inr,
}
use graphify_daemon_portfoli.Prelude.Dict.{Dict, lookup, lookup-remove}
use graphify_daemon_portfoli.Prelude.Exec.{Error, ok, raise}
use graphify_daemon_portfoli.Vault.Path.{FilePath, str, of_str}
use graphify_daemon_portfoli.Vault.FileSystem.{FileSystem}
use graphify_daemon_portfoli.Graphify.{Extraction, Graphify}
use graphify_daemon_portfoli.Compiler.Extraction.{ExtractionCache, State, delete, entries}
use graphify_daemon_portfoli.Compiler.Snapshot.{GraphSnapshot, SnapshotHolder, publish}
use graphify_daemon_portfoli.Lifecycle.Health.{health_check}
use graphify_daemon_portfoli.Lifecycle.ColdStart.{is_observed, prune, cached_paths, cold_start}

-- A key that `str` makes of its own path; `save` writes only such keys.
abbrev pub IsNormal : String → Type 0
IsNormal k = str (of_str k) ≡ k

module _ (g : Graphify) (fs : FileSystem) (vault_root : FilePath) (nested : List String)
    (observed : List FilePath) (k : String) where
  -- Some path of the list has the key `k` and was not observed.
  abbrev hit : List FilePath → Bool
  hit = any (λ p. not (is_observed observed p) && str_eq (str p) k)

  entry-delete :
      (p : FilePath) (c : ExtractionCache)
      → lookup String-discrete k (delete p c).entries
        ≡ (if str_eq (str p) k then none else lookup String-discrete k c.entries)
  unfolding delete
  entry-delete p c =
      ground (arith, eq_iff (str p) k, lookup-remove String-discrete (str p) k c.entries)

  prune-hit :
      (ps : List FilePath) (c : ExtractionCache)
      → lookup String-discrete k (prune g fs vault_root nested observed ps c).entries
        ≡ (if hit ps then none else lookup String-discrete k c.entries)
  unfolding prune
  prune-hit [] c = refl
  prune-hit (p ∷ ps) c = elim (Bool-cases (is_observed observed p)) [
    | inl seen ↦ ground (arith, seen, prune-hit ps c)
    | inr gone ↦ ground (arith, gone, prune-hit ps (delete p c), entry-delete p c)
  ]

  seen_too :
      (j : String)
      → is_observed observed (of_str k) ≡ true
      → j ≡ k
      → is_observed observed (of_str j) ≡ true
  seen_too j seen same = ap (λ x. is_observed observed (of_str x)) same ∙ seen

  unseen_too :
      (j : String)
      → is_observed observed (of_str k) ≡ false
      → j ≡ k
      → is_observed observed (of_str j) ≡ false
  unseen_too j unseen same = ap (λ x. is_observed observed (of_str x)) same ∙ unseen

  -- An observed key is not hit, and an unobserved key that is cached is.
  kept :
      (d : Dict String Extraction)
      → All (λ e. IsNormal e.0) d
      → is_observed observed (of_str k) ≡ true
      → hit (map (λ e. of_str e.0) d) ≡ false
  kept [] normal seen = refl
  kept ((j, r) ∷ d) normal seen =
      ground (arith, seen_too j seen, eq_iff (str (of_str j)) k, kept d normal.1 seen, normal.0)

  gone :
      (d : Dict String Extraction) (r : Extraction)
      → IsNormal k
      → lookup String-discrete k d ≡ some r
      → is_observed observed (of_str k) ≡ false
      → hit (map (λ e. of_str e.0) d) ≡ true
  unfolding lookup
  gone [] r normal found unseen = cc
  gone ((j, q) ∷ d) r normal found unseen = elim (String-discrete j k) [
    | yes same ↦
        ground (
          arith,
          unseen_too j unseen same,
          eq_iff (str (of_str j)) k,
          ap (λ x. str (of_str x)) same,
        )
    | no other ↦ ground (arith, gone d r normal)
  ]

  paths_of :
      (d : Dict String Extraction)
      → map (λ e. e.0) (map {B = FilePath × Extraction} (λ e. (of_str e.0, e.1)) d)
        ≡ map (λ e. of_str e.0) d
  paths_of [] = refl
  paths_of (e ∷ d) = ap (λ ps. of_str e.0 ∷ ps) (paths_of d)

  cached_paths_lem :
      (c : ExtractionCache)
      → cached_paths g fs vault_root nested c ≡ map (λ e. of_str e.0) c.entries
  unfolding entries
  cached_paths_lem c = paths_of c.entries

  pruned :
      (c : ExtractionCache)
      → lookup String-discrete k
          (prune g fs vault_root nested observed (cached_paths g fs vault_root nested c) c).entries
        ≡ (if hit (map (λ e. of_str e.0) c.entries)
            then none
            else lookup String-discrete k c.entries)
  pruned c = rw cached_paths_lem (prune-hit (map (λ e. of_str e.0) c.entries) c)

  -- For a cache whose keys are normal, reconciliation keeps the entry at a normal key if its path was
  -- observed, and leaves none there otherwise.
  prune-entries :
      (c : ExtractionCache)
      → All (λ e. IsNormal e.0) c.entries
      → IsNormal k
      → lookup String-discrete k
          (prune g fs vault_root nested observed (cached_paths g fs vault_root nested c) c).entries
        ≡ (if is_observed observed (of_str k) then lookup String-discrete k c.entries else none)
  prune-entries c normal normal_k = elim (Bool-cases (is_observed observed (of_str k))) [
    | inl seen ↦ ground (arith, seen, pruned c, kept c.entries normal seen)
    | inr unseen ↦ elim (Option-cases (lookup String-discrete k c.entries)) [
      | inl absent ↦ ground (arith, unseen, absent, pruned c)
      | inr (r, found) ↦
          ground (arith, unseen, found, pruned c, gone c.entries r normal_k found unseen)
    ]
  ]

-- A cold start that returns has published its snapshot, with the holder's next version and no communities
-- yet, so that the daemon is ready.
cold_start_publishes :
    (g : Graphify) (fs : FileSystem) (vault_root : FilePath) (nested : List String) (s : State)
    (holder : SnapshotHolder g) (snapshot : GraphSnapshot g)
    → (cold_start g fs vault_root nested s holder).0 ≡ ok snapshot
    → let started = (cold_start g fs vault_root nested s holder).1 in
      (started.holder.current ≡ some snapshot)
      × (snapshot.version ≡ holder.next_version)
      × (snapshot.community_map ≡ [])
      × ((health_check g started.holder).ready ≡ true)
unfolding cold_start publish health_check
cold_start_publishes g fs vault_root nested s holder snapshot h = ground arith

-- A cold start that raises has published nothing.
pub failed_cold_start_publishes_nothing :
    (g : Graphify) (fs : FileSystem) (vault_root : FilePath) (nested : List String) (s : State)
    (holder : SnapshotHolder g) (e : Error)
    → (cold_start g fs vault_root nested s holder).0 ≡ raise e
    → (cold_start g fs vault_root nested s holder).1.holder ≡ holder
unfolding cold_start publish
failed_cold_start_publishes_nothing g fs vault_root nested s holder e h = ground arith
