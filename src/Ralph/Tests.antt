-- ===== src/Ralph/Tests.antt =====
-- Persistent workers at concrete sessions, and the theorems about them there.
use Prim.Native.Nat.{max}
use droid_swarm.Prelude.{suc, true, none, some, [], ◌∷◌, get, ◌≡◌, refl, arith}
use droid_swarm.Prelude.Words.{trim}
use droid_swarm.Governance.Laws.{SwarmRole}
use droid_swarm.Governance.Store.{default_store}
use droid_swarm.Ralph.Sessions.{RalphStatus, RalphWorkerSessionRecord, RalphStore, MetaValue}
use droid_swarm.Ralph.Signals.{normalize_loop_config}
use droid_swarm.Ralph.Iteration.{RalphEnvironment, last_iteration}
use droid_swarm.Ralph.Loop.{RalphSchedule, run_ralph_loop}
use droid_swarm.Ralph.Progress.{IsCompleted, run_ralph_loop-IsCompleted}
use droid_swarm.Ralph.Slave.{IsHalted, run_ralph_loop-IsHalted}

abbrev env : SwarmRole → RalphEnvironment
env role = record {
  ralph_enabled = true;
  swarm_role = role;
  federation_node_id = none;
  mythos_available = true;
  platform = "linux";
  arch = "x64";
  registered = λ role. [];
  retrieve_relevant_memories = λ project_id query memories. [];
}

-- Someone else writes another session while the loop sleeps.
abbrev schedule : RalphSchedule
schedule = record {
  moment = λ left. record { now = "now"; consensus_id = "c"; proposal_id = "p" };
  meanwhile = λ left store. record store { audit_events = "OTHER" ∷ store.audit_events };
}

abbrev session : RalphWorkerSessionRecord
session = record {
  session_id = "s";
  project_id = "project";
  worker_name = "ralph";
  goal = "Polish the docs";
  status = RalphStatus.running;
  iteration_count = 2;
  max_iterations = 12;
  completion_signal = "<RALPH_DONE>";
  sleep_ms = 0;
  engine = none;
  route_kind = none;
  assigned_node_id = none;
  current_task = none;
  last_summary = none;
  last_error = none;
  governance_consensus_id = none;
  metadata = ("autoCompleteAfter", MetaValue.number 5) ∷ [];
  started_at = "then";
  paused_at = none;
  completed_at = none;
  created_at = "then";
  updated_at = "then";
}

abbrev store : RalphStore
store = record {
  sessions = ("s", session) ∷ [];
  memories = [];
  governance = default_store;
  audit_events = [];
}

run_ralph_loop-IsCompleted_example :
    IsCompleted
      (run_ralph_loop (env SwarmRole.master) schedule 4 "s" store)
      (max (suc session.iteration_count) (last_iteration session))
unfolding get
run_ralph_loop-IsCompleted_example =
    run_ralph_loop-IsCompleted (env SwarmRole.master) schedule "s" refl (λ left store. refl) 4 store
      session refl refl refl (omega arith) (omega arith)

run_ralph_loop-IsHalted_example :
    IsHalted (run_ralph_loop (env SwarmRole.slave) schedule 4 "s" store) 2 []
unfolding get
run_ralph_loop-IsHalted_example =
    run_ralph_loop-IsHalted (env SwarmRole.slave) schedule "s" refl 3 store session refl refl

-- An empty setting is replaced by the default, and a maximum is at least one.
settings :
    (normalize_loop_config (record {
      max_iterations = some 0;
      completion_signal = some "  ";
      sleep_ms = none;
    })).completion_signal
    ≡ "<RALPH_DONE>"
unfolding normalize_loop_config trim
settings = refl
