-- ===== src/Daemon/Threads/Order/Recreated.antt =====
-- batching.py, extraction.py and shutdown.py: what overtaking does to a file that is deleted and made again.
use graphify_daemon_portfoli.Prelude.{
  ◌≡◌, refl, ap, ◌∙◌, arith, none, some, [], ◌∷◌, String-discrete, if_pos,
}
use graphify_daemon_portfoli.Prelude.Dict.{lookup, lookup-remove}
use graphify_daemon_portfoli.Vault.Path.{FilePath, str, relative_to}
use graphify_daemon_portfoli.Vault.Batching.{ChangeKind, FileChange, Batch}
use graphify_daemon_portfoli.Graphify.{Graphify}
use graphify_daemon_portfoli.Compiler.Extraction
use graphify_daemon_portfoli.Compiler.Extraction.{
  delete, drop_cached, extract_change, extract_changes, extract_batch,
}
use graphify_daemon_portfoli.Daemon.{
  Daemon, extract_step, sync_step, publish_step, cadence_step, run_cycle, compile_batch,
}
use graphify_daemon_portfoli.Daemon.Threads.{Turn, Owner, Event, System, Reach, begin, IsFresh}
use graphify_daemon_portfoli.Daemon.Threads.Sealed.{sealed}
use graphify_daemon_portfoli.Daemon.Threads.Serial.{serial, replay, run_event}
use graphify_daemon_portfoli.Daemon.Threads.Order.{alone, batches_overtake}

abbrev pub deletion : FilePath → FileChange
deletion path = record { path = path; kind = ChangeKind.deleted; previous_path = none }

abbrev pub creation : FilePath → FileChange
creation path = record { path = path; kind = ChangeKind.created; previous_path = none }

module _ (g : Graphify) where
  compile-vault_root :
      (b : Batch) (t : Turn) (d : Daemon g)
      → (compile_batch g t.files t.schedule t.moment b d).1.vault_root ≡ d.vault_root
  unfolding compile_batch extract_step sync_step publish_step cadence_step run_cycle
  compile-vault_root b t d = ground arith

  -- The rest of a compilation leaves the cache as the extraction leaves it.
  compile-cache :
      (b : Batch) (t : Turn) (d : Daemon g)
      → (compile_batch g t.files t.schedule t.moment b d).1.cache
        ≡ (extract_step g t.files b d).1.cache
  unfolding compile_batch sync_step publish_step cadence_step run_cycle
  compile-cache b t d = ground arith

  deleted-cache :
      (path relative : FilePath) (t : Turn) (d : Daemon g)
      → relative_to path d.vault_root ≡ some relative
      → (compile_batch g t.files t.schedule t.moment (alone (deletion path)) d).1.cache
        ≡ delete relative d.cache
  unfolding extract_step extract_batch extract_changes extract_change drop_cached
  deleted-cache path relative t d e = compile-cache (alone (deletion path)) t d ∙ ground (arith, e)

  get-delete :
      (relative : FilePath) (c : Extraction.ExtractionCache)
      → Extraction.get relative (delete relative c) ≡ none
  unfolding Extraction.get delete
  get-delete relative c =
      lookup-remove String-discrete (str relative) (str relative) c.entries
      ∙ if_pos (String-discrete (str relative) (str relative)) refl none
          (lookup String-discrete (str relative) c.entries)

  -- A file under the vault's root that is deleted and then made again can stay out of the extraction
  -- cache of a running daemon whose watcher had seen nothing, whatever the files are when its batches
  -- are compiled: there is a run in which the deletion is accepted before the creation, the creation is
  -- compiled before the deletion, each alone in its batch, nothing is pending, nothing is in hand, no
  -- lock is held, and the cache has no entry for the file.
  pub recreated_file_lost :
      (d : Daemon g) (path relative : FilePath) (t1 t2 : Turn)
      → IsFresh g d
      → relative_to path d.vault_root ≡ some relative
      → (s : System g) × Reach g (begin g d) s
        × (s.accepted ≡ deletion path ∷ creation path ∷ [])
        × (s.history
            ≡ Event.compiles (alone (creation path)) t2
              ∷ Event.compiles (alone (deletion path)) t1
              ∷ [])
        × (s.daemon.watcher.pending ≡ [])
        × (s.owner ≡ Owner.free)
        × (s.in_hand ≡ [])
        × (Extraction.get relative s.daemon.cache ≡ none)
  unfolding replay run_event
  recreated_file_lost d path relative t1 t2 f e =
      let (s, r, accepted, history, owner, in_hand, pending) =
        batches_overtake g d (deletion path) (creation path) t1 t2 f in
      let made = (compile_batch g t2.files t2.schedule t2.moment (alone (creation path)) d).1 in
      let same = serial g d s r owner ∙ ap (λ h. sealed g (replay g h d)) history in
      (
        s,
        r,
        accepted,
        history,
        pending,
        owner,
        in_hand,
        ap (λ x. Extraction.get relative x.cache) same
            ∙ ap (Extraction.get relative) (
                deleted-cache path relative t1 made
                  (ap (relative_to path) (compile-vault_root (alone (creation path)) t2 d) ∙ e))
            ∙ get-delete relative made.cache,
      )
