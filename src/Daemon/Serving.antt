-- ===== src/Daemon/Serving.antt =====
-- daemon.py: `run_forever` around transport.py's `run`. What happens while the daemon serves is a parameter:
-- any change of the daemon that ends with a return or an exception, such as the SystemExit that the
-- handlers of SIGTERM and SIGINT raise.
use graphify_daemon_portfoli.Prelude.{
  ℕ, List, ◌∷◌, ◌++◌, ◌≡◌, ◌≢◌, refl, ap, ◌∙◌, ◌⊎◌, inl, inr, arith, false, Option, none, some, [],
  String, String-discrete, if_neg,
}
use graphify_daemon_portfoli.Prelude.Exec.{Exec, ok, raise, configuration_error, system_exit}
use graphify_daemon_portfoli.Prelude.Text.{Text}
use graphify_daemon_portfoli.Vault.FileSystem.{FileSystem}
use graphify_daemon_portfoli.Graphify.{Graphify}
use graphify_daemon_portfoli.Compiler.Clustering.{Schedule}
use graphify_daemon_portfoli.Lifecycle.Artifacts.{save_cache}
use graphify_daemon_portfoli.Lifecycle.Cadence.{content_of}
use graphify_daemon_portfoli.Query.Transport.{validate_host, validate_api_key, run}
use graphify_daemon_portfoli.Daemon.{
  DaemonState, Moment, Daemon, finish_shutdown, persist_on_shutdown, shutdown,
}
use graphify_daemon_portfoli.Daemon.Lifecycle.{last_compilation, shutdown_ok}

-- `finally`: the exception of the cleanup, if it raises one, replaces the outcome.
abbrev pub finally : {S : Type 0} → Exec S Unit → Exec S Unit → Exec S Unit
finally body cleanup s =
    let (outcome, after) = body s in
    let (cleaned, end) = cleanup after in (elim cleaned [ raise e ↦ raise e | ok u ↦ outcome ], end)

-- `_handle_shutdown_signal`: it logs the signal's name, and unwinds without touching the daemon.
unfoldable pub handle_shutdown_signal : String → Exec (List String) Unit
handle_shutdown_signal name log = (raise system_exit, log ++ name ∷ [])

-- Serving that a signal interrupts: what it did to the daemon stays, and the handler's exception leaves it.
abbrev pub interrupted : {S : Type 0} → (Text → S → S) → String → Text → Exec S Unit
interrupted before name key s = ((handle_shutdown_signal name []).0, before key s)

module _ (g : Graphify) (fs : FileSystem) (schedule : Schedule) (m : Moment)
    (serve : Text → Exec (Daemon g) Unit) where
  -- `run_forever`
  unfoldable pub run_forever : String → Option Text → Exec (Daemon g) Unit
  run_forever host api_key = finally (run serve host api_key) (shutdown g fs schedule m)

  closes :
      (host : String) (api_key : Option Text) (d : Daemon g)
      → (run serve host api_key d).1.state ≡ DaemonState.running
      → (last_compilation g fs schedule m (run serve host api_key d).1).0 ≡ ok tt
      → run_forever host api_key d ≡ (
        (run serve host api_key d).0,
        finish_shutdown g (last_compilation g fs schedule m (run serve host api_key d).1).1,
      )
  unfolding run_forever
  closes host api_key d h c = rw (shutdown_ok g fs schedule m (run serve host api_key d).1 h c) refl

  -- However serving ends, with a return, an exception or a signal: if it leaves the daemon RUNNING and the
  -- changes that were pending then compile, `run_forever` ends the same way, and the daemon is STOPPED, its
  -- database is closed, and the cache on disk is the one that the last compilation left.
  pub run_forever-closes :
      (host : String) (api_key : Option Text) (d : Daemon g)
      → (run serve host api_key d).1.state ≡ DaemonState.running
      → (last_compilation g fs schedule m (run serve host api_key d).1).0 ≡ ok tt
      → let (outcome, end) = run_forever host api_key d in
        (outcome ≡ (run serve host api_key d).0)
        × (end.state ≡ DaemonState.stopped)
        × (end.vault_index_conn.is_open ≡ false)
        × (content_of g end.disk.graph_cache_json
            ≡ some (last_compilation g fs schedule m (run serve host api_key d).1).1.cache)
  unfolding finish_shutdown persist_on_shutdown save_cache
  run_forever-closes host api_key d h c = rw (closes host api_key d h c) (refl, refl, refl, refl)

  -- What makes `run` refuse to serve.
  abbrev pub IsRefused : String → Option Text → Type 0
  IsRefused host api_key =
      ((host ≢ "127.0.0.1") × (host ≢ "localhost")) ⊎ ((api_key ≡ none) ⊎ (api_key ≡ some []))

  refused :
      (host : String) (api_key : Option Text) (d : Daemon g)
      → IsRefused host api_key
      → run serve host api_key d ≡ (raise configuration_error, d)
  unfolding run validate_host validate_api_key
  refused host api_key d (inl (n, l)) =
      rw (if_neg (String-discrete host "127.0.0.1") n, if_neg (String-discrete host "localhost") l)
        refl
  refused host api_key d (inr (inl none_there)) = rw none_there (ground arith)
  refused host api_key d (inr (inr empty)) = rw empty (ground arith)

  -- A host that is not loopback, or a key that is missing or empty: whatever serving would do, the daemon never
  -- serves, `run_forever` raises a ConfigurationError, and a RUNNING daemon whose pending changes compile is
  -- still shut down and persisted.
  refused_start-closes :
      (host : String) (api_key : Option Text) (d : Daemon g)
      → IsRefused host api_key
      → d.state ≡ DaemonState.running
      → (last_compilation g fs schedule m d).0 ≡ ok tt
      → run_forever host api_key d
        ≡ (raise configuration_error, finish_shutdown g (last_compilation g fs schedule m d).1)
  refused_start-closes host api_key d no_start h c =
      let same = refused host api_key d no_start in
      closes host api_key d (ap (λ x. x.1.state) same ∙ h)
        (ap (λ x. (last_compilation g fs schedule m x.1).0) same ∙ c)
      ∙ ap (λ x. (x.0, finish_shutdown g (last_compilation g fs schedule m x.1).1)) same

module _ (g : Graphify) (fs : FileSystem) (schedule : Schedule) (m : Moment)
    (before : Text → Daemon g → Daemon g) where
  -- A signal while the daemon serves, with a host that is accepted and a key: if what was served leaves the
  -- daemon RUNNING and the changes that were pending then compile, `run_forever` ends in SystemExit, and
  -- the daemon is STOPPED with its database closed.
  signal_shuts_down :
      (name host : String) (c : ℕ) (key : Text) (d : Daemon g)
      → validate_host host ≡ ok tt
      → (before (c ∷ key) d).state ≡ DaemonState.running
      → (last_compilation g fs schedule m (before (c ∷ key) d)).0 ≡ ok tt
      → let (outcome, end) =
          run_forever g fs schedule m (interrupted before name) host (some (c ∷ key)) d in
        (outcome ≡ raise system_exit)
        × (end.state ≡ DaemonState.stopped)
        × (end.vault_index_conn.is_open ≡ false)
  unfolding run_forever run handle_shutdown_signal finish_shutdown persist_on_shutdown
      validate_api_key
  signal_shuts_down name host c key d h r e =
      ground (arith, h, shutdown_ok g fs schedule m (before (c ∷ key) d) r e)
