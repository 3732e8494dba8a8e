-- ===== src/Compiler/Clustering.antt =====
-- vault_compiler/clustering.py: clustering in a subprocess, and the cycle that republishes. Whether the
-- worker's message arrives before the timeout, and whether the process then exits by itself, is up to the
-- system: both are arguments.
pub mod Inversion
use graphify_daemon_portfoli.Prelude.{
  ℕ, Bool, true, false, ◌&&◌, ◌||◌, Option, none, some, List, [], ◌∷◌, ◌++◌, ◌≡◌, refl, arith,
  String, str_eq, String-discrete, if◌then◌else◌,
}
use graphify_daemon_portfoli.Prelude.Dict.{Dict, put}
use graphify_daemon_portfoli.Prelude.Exec.{Result, ok, raise}
use graphify_daemon_portfoli.Prelude.Text.{Text}
use graphify_daemon_portfoli.Lifecycle.Metrics.{Metrics, when_given, record_event_time}
use graphify_daemon_portfoli.Graphify.{Communities, Graphify}
use graphify_daemon_portfoli.Compiler.Snapshot.{GraphSnapshot, SnapshotHolder, publish}

-- The worker's message: ("ok", communities) or ("error", text).
pub data Message : Type 0 where
  done : Communities → Message
  failed : Text → Message

-- What the parent does with the child process, in order.
pub data Action : Type 0 where
  starts drains terminates joins waits : Action

-- What the system does: the message comes in time; the child exits by itself after it.
pub record Schedule : Type 0 where
  pub in_time : Bool
  pub exits : Bool

-- The loop body of the comprehension: every node of a community.
abbrev pub invert_nodes : ℕ → List String → Dict String ℕ → Dict String ℕ
invert_nodes cid [] d = d
invert_nodes cid (node ∷ nodes) d = invert_nodes cid nodes (put String-discrete node cid d)

abbrev pub invert_from : Communities → Dict String ℕ → Dict String ℕ
invert_from [] d = d
invert_from ((cid, nodes) ∷ m) d = invert_from m (invert_nodes cid nodes d)

unfoldable pub build_previous_node_community : Communities → Dict String ℕ
build_previous_node_community m = invert_from m []

-- Whether the parent waits for the child or joins it before it has read the queue.
abbrev pub waits_undrained : List Action → Bool
waits_undrained [] = false
waits_undrained (Action.starts ∷ rest) = waits_undrained rest
waits_undrained (Action.terminates ∷ rest) = waits_undrained rest
waits_undrained (Action.drains ∷ rest) = false
waits_undrained (Action.joins ∷ rest) = true
waits_undrained (Action.waits ∷ rest) = true

abbrev joined : List Action → Bool
joined [] = false
joined (Action.joins ∷ rest) = true
joined (Action.starts ∷ rest) = joined rest
joined (Action.drains ∷ rest) = joined rest
joined (Action.terminates ∷ rest) = joined rest
joined (Action.waits ∷ rest) = joined rest

-- Whether the child is over: it exited by itself, or was terminated and then joined.
abbrev pub is_over : Bool → List Action → Bool
is_over exited [] = exited
is_over exited (Action.terminates ∷ rest) = exited || joined rest
is_over exited (Action.joins ∷ rest) = is_over exited rest
is_over exited (Action.starts ∷ rest) = is_over exited rest
is_over exited (Action.drains ∷ rest) = is_over exited rest
is_over exited (Action.waits ∷ rest) = is_over exited rest

module _ (g : Graphify) where
  open g use {Graph, str_exc, cluster, remap_communities_to_previous}

  unfoldable pub cluster_worker : Graph → Message
  cluster_worker graph = elim (cluster graph) [ ok m ↦ done m | raise e ↦ failed (str_exc e) ]

  abbrev usable : Message → Option Communities
  usable (done m) = some m
  usable (failed t) = none

  -- The actions after the message was read.
  abbrev finish : Bool → List Action
  finish true = waits ∷ []
  finish false = waits ∷ terminates ∷ joins ∷ []

  unfoldable pub run_clustering_subprocess : Graph → Schedule → Option Communities × List Action
  unfolding cluster_worker
  run_clustering_subprocess graph schedule =
      if schedule.in_time
      then (usable (cluster_worker graph), starts ∷ drains ∷ finish schedule.exits)
      else (none, starts ∷ drains ∷ terminates ∷ joins ∷ [])

  pub record Clustered : Type 0 where
    pub published : Option (GraphSnapshot g)
    pub holder : SnapshotHolder g
    pub metrics : Option Metrics

  unfoldable pub run_clustering_cycle : SnapshotHolder g → Schedule → ℕ → Option Metrics → Clustered
  unfolding run_clustering_subprocess build_previous_node_community
  run_clustering_cycle holder schedule now metrics = elim holder.current [
    | none ↦ record { published = none; holder = holder; metrics = metrics }
    | some current ↦ elim (run_clustering_subprocess current.graph schedule).0 [
      | none ↦ record { published = none; holder = holder; metrics = metrics }
      | some raw_communities ↦
          let previous = build_previous_node_community current.community_map in
          let remapped = remap_communities_to_previous raw_communities previous in
          let (snapshot, holder') = publish g current.graph remapped holder in
          record {
            published = some snapshot;
            holder = holder';
            metrics = when_given (record_event_time "clustering_success" now) metrics;
          }
    ]
  ]

  -- A clustering cycle that returns None leaves the holder and the metrics as they were.
  failed_cycle_keeps_snapshot :
      (holder : SnapshotHolder g) (schedule : Schedule) (now : ℕ) (metrics : Option Metrics)
      → (run_clustering_cycle holder schedule now metrics).published ≡ none
      → ((run_clustering_cycle holder schedule now metrics).holder ≡ holder)
        × ((run_clustering_cycle holder schedule now metrics).metrics ≡ metrics)
  unfolding run_clustering_cycle
  failed_cycle_keeps_snapshot holder schedule now metrics h = ground arith

  -- Whatever the system does, the parent reads the queue before it waits for or joins the child, and
  -- the child is over in the end: it exits by itself after its message, or it is terminated and then
  -- joined.
  drains_before_joining :
      (graph : Graph) (schedule : Schedule)
      → (waits_undrained (run_clustering_subprocess graph schedule).1 ≡ false)
        × (is_over (schedule.in_time && schedule.exits) (run_clustering_subprocess graph schedule).1
            ≡ true)
  unfolding run_clustering_subprocess
  drains_before_joining graph schedule = ground arith
