-- ===== src/Daemon/Threads/Parts.antt =====
-- daemon.py, batching.py and shutdown.py: the places in the code where a thread can stand, the holder of the
-- coordinator's lock, and what was done under it.
use graphify_daemon_portfoli.Prelude.{Option, none, some, List, [], ◌∷◌, ◌++◌}
use graphify_daemon_portfoli.Prelude.Exec.{Error, Result, ok, raise}
use graphify_daemon_portfoli.Vault.FileSystem.{FileSystem}
use graphify_daemon_portfoli.Vault.Batching.{Batch}
use graphify_daemon_portfoli.Compiler.Clustering.{Schedule}
use graphify_daemon_portfoli.Daemon.{Moment}

-- What the system does during one body under the coordinator's lock: the files, the child process, the clock.
pub record Turn : Type 0 where
  pub files : FileSystem
  pub schedule : Schedule
  pub moment : Moment

-- Who has called `run_batch` with a batch.
pub data Caller : Type 0 where
  by_timer by_shutdown : Caller

-- The calls of `_compile_batch`, in order.
pub data Phase : Type 0 where
  extracting syncing publishing noting : Phase

abbrev pub following : Phase → Option Phase
following Phase.extracting = some Phase.syncing
following Phase.syncing = some Phase.publishing
following Phase.publishing = some Phase.noting
following Phase.noting = none

-- The coordinator's lock: free, or held by one body.
pub data Owner : Type 0 where
  free persisting : Owner
  compiling : Caller → Batch → Turn → Phase → Owner
  cycling : Turn → Owner

-- Where the thread that shuts down stands; `claimed` has set the state to STOPPING.
pub data Stage : Type 0 where
  unclaimed claimed rejected in_batch compiled unwatched in_persist persisted finished : Stage
  drained : Batch → Stage
  failed : Error → Stage

-- A body that has ended its turn under the coordinator's lock.
pub data Event : Type 0 where
  compiles : Batch → Turn → Event
  cycles : Turn → Event
  persists : Event

-- `if pending is not None:`
abbrev pub after_drained : Option Batch → Stage
after_drained none = Stage.compiled
after_drained (some b) = Stage.drained b

abbrev pub handed : Option Batch → List Batch → List Batch
handed none bs = bs
handed (some b) bs = bs ++ b ∷ []

-- Where a thread goes on when its `run_batch` returns or raises.
abbrev pub returned : Caller → Result (Unit {0}) → Stage → Stage
returned Caller.by_timer r stage = stage
returned Caller.by_shutdown (ok u) stage = Stage.compiled
returned Caller.by_shutdown (raise e) stage = Stage.failed e
