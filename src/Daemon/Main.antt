-- ===== src/Daemon/Main.antt =====
-- daemon.py: `main`, from the environment to the end of `run_forever`. `loads` is json's, `observe` says
-- whether the start of watchdog's observer returns or raises, and `serve` is what uvicorn does on a port.
use graphify_daemon_portfoli.Prelude.{
  ℕ, ◌≡◌, ◌≢◌, refl, ◌⊎◌, inl, inr, ◌↔◌, Option, none, some, String,
}
use graphify_daemon_portfoli.Prelude.Exec.{Error, Result, Exec, ok, raise}
use graphify_daemon_portfoli.Prelude.Text.{Text}
use graphify_daemon_portfoli.Vault.FileSystem.{FileSystem}
use graphify_daemon_portfoli.Graphify.{Graphify}
use graphify_daemon_portfoli.Compiler.Snapshot.{GraphSnapshot}
use graphify_daemon_portfoli.Compiler.Clustering.{Schedule}
use graphify_daemon_portfoli.Lifecycle.VaultIndex.{Connection}
use graphify_daemon_portfoli.Lifecycle.Artifacts.{Disk}
use graphify_daemon_portfoli.Query.Transport.{run}
use graphify_daemon_portfoli.Daemon.{DaemonState, Moment, Daemon}
use graphify_daemon_portfoli.Daemon.Lifecycle.{shutdown-not_running}
use graphify_daemon_portfoli.Daemon.Configuration.{
  Environment, Settings, settings_of, port_of, host_of, api_key_of,
}
use graphify_daemon_portfoli.Daemon.Restart.{Loads, init, cold_start, state-cold_start}
use graphify_daemon_portfoli.Daemon.Serving.{run_forever}

abbrev pub IsRaise : {A : Type 0} → Result A → Type 0
IsRaise r = (e : Error) × (r ≡ raise e)

-- What the cold start of a daemon gives that is made with some settings.
abbrev pub first_start :
    (g : Graphify)
    → FileSystem
    → Loads
    → Settings
    → ℕ
    → Connection
    → Disk g
    → Result (GraphSnapshot g)
first_start g fs loads settings now conn disk =
    (cold_start g fs loads (init g settings now conn disk)).0

module _ (g : Graphify) (fs : FileSystem) (loads : Loads) (observe : Result (Unit {0}))
    (schedule : Schedule) (m : Moment) (serve : ℕ → Text → Exec (Daemon g) Unit) where
  -- `Daemon.start`, with `VaultWatcher.start`: nothing but the observer changes.
  unfoldable pub start : Exec (Daemon g) Unit
  start d = (observe, d)

  -- The end of `main`, with the daemon that it leaves: `run_forever`, if the port is a number.
  abbrev served : Environment → Result ℕ → Exec (Daemon g) Unit
  served env (raise e) d = (raise e, d)
  served env (ok port) d = run_forever g fs schedule m (serve port) (host_of env) (api_key_of env) d

  -- After the start of the watcher.
  abbrev observed : Environment → Result (Unit {0}) → Exec (Daemon g) Unit
  observed env (raise e) d = (raise e, d)
  observed env (ok u) d = served env (port_of env) d

  -- After the cold start.
  abbrev started : Environment → Result (GraphSnapshot g) → Exec (Daemon g) Unit
  unfolding start
  started env (raise e) d = (raise e, d)
  started env (ok snapshot) d = let (outcome, watching) = start d in observed env outcome watching

  abbrev with_settings :
      Environment
      → ℕ
      → Connection
      → Disk g
      → Result Settings
      → Result (Unit {0}) × Option (Daemon g)
  with_settings env now conn disk (raise e) = (raise e, none)
  with_settings env now conn disk (ok settings) =
      let (published, d) = cold_start g fs loads (init g settings now conn disk) in
      let (outcome, end) = started env published d in (outcome, some end)

  -- `main`, with what it raises, and the daemon, if it came to be
  unfoldable pub main :
      Environment → ℕ → Connection → Disk g → Result (Unit {0}) × Option (Daemon g)
  unfolding run_forever settings_of port_of cold_start start
  main env now conn disk = with_settings env now conn disk (settings_of env)

  run_forever-not_running :
      (port : ℕ) (host : String) (api_key : Option Text) (d : Daemon g)
      → (run_forever g fs schedule m (serve port) host api_key d).1.state ≢ DaemonState.running
  unfolding run_forever
  run_forever-not_running port host api_key d =
      shutdown-not_running g fs schedule m (run (serve port) host api_key d).1

  served_iff :
      (env : Environment) (port : Result ℕ) (d : Daemon g)
      → d.state ≡ DaemonState.running
      → ((served env port d).1.state ≡ DaemonState.running) ↔ IsRaise port
  served_iff env (raise e) d h = (λ r. (e, refl), λ r. h)
  served_iff env (ok port) d h =
      (λ r. absurd (run_forever-not_running port (host_of env) (api_key_of env) d r), λ (e, r). cc)

  observed_iff :
      (env : Environment) (outcome : Result (Unit {0})) (d : Daemon g)
      → d.state ≡ DaemonState.running
      → ((observed env outcome d).1.state ≡ DaemonState.running)
        ↔ (IsRaise outcome ⊎ IsRaise (port_of env))
  observed_iff env (raise e) d h = (λ r. inl (e, refl), λ r. h)
  observed_iff env (ok u) d h =
      let (there, back) = served_iff env (port_of env) d h in
      (λ r. inr (there r), λ r. elim r [ inl (e, x) ↦ cc | inr x ↦ back x ])

  started_iff :
      (env : Environment) (published : Result (GraphSnapshot g)) (d : Daemon g)
      → d.state ≡ DaemonState.running
      → ((started env published d).1.state ≡ DaemonState.running)
        ↔ (IsRaise published ⊎ (IsRaise observe ⊎ IsRaise (port_of env)))
  unfolding start
  started_iff env (raise e) d h = (λ r. inl (e, refl), λ r. h)
  started_iff env (ok snapshot) d h =
      let (there, back) = observed_iff env observe d h in
      (λ r. inr (there r), λ r. elim r [ inl (e, x) ↦ cc | inr x ↦ back x ])

  -- If the settings before the daemon is made are valid, `main` leaves a daemon behind, and it leaves it
  -- RUNNING exactly if the cold start raises, the start of the observer raises, or the port is not a
  -- number.
  pub main-leaves_running :
      (env : Environment) (now : ℕ) (conn : Connection) (disk : Disk g) (settings : Settings)
      → settings_of env ≡ ok settings
      → (d : Daemon g) × ((main env now conn disk).1 ≡ some d)
        × ((d.state ≡ DaemonState.running) ↔ (
            IsRaise (first_start g fs loads settings now conn disk)
            ⊎ (IsRaise observe ⊎ IsRaise (port_of env))))
  unfolding main init
  main-leaves_running env now conn disk settings h =
      let new : Daemon g = init g settings now conn disk in
      rw h (
        _,
        refl,
        started_iff env (cold_start g fs loads new).0 (cold_start g fs loads new).1
            (state-cold_start g fs loads new),
      )
