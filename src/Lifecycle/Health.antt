-- ===== src/Lifecycle/Health.antt =====
-- artifact_lifecycle/health.py
use graphify_daemon_portfoli.Prelude.{Bool, true, false, none, some}
use graphify_daemon_portfoli.Graphify.{Graphify}
use graphify_daemon_portfoli.Compiler.Snapshot.{SnapshotHolder}

pub record Health : Type 0 where
  pub alive : Bool
  pub ready : Bool

unfoldable pub health_check : (g : Graphify) → SnapshotHolder g → Health
health_check g holder = record {
  alive = true;
  ready = elim holder.current [ none ↦ false | some s ↦ true ];
}
