-- ===== src/Scheduler/Tests.antt =====
-- The scheduler at concrete tables, and its theorems there.
use droid_swarm.Prelude.{
  ℕ, ◌≤◌, String, true, false, ◌==◌, if◌then◌else◌, none, some, [], ◌∷◌, get, ◌≡◌, ◌≢◌, ◌↔◌, refl,
  arith, inr, eq_iff,
}
use droid_swarm.Prelude.Sets.{has}
use droid_swarm.Runs.Records.{TaskStatus, PersistedTask}
use droid_swarm.Runs.Tests.{task_in}
use droid_swarm.Scheduler.State.{SchedulerConfig, Load, SchedulerState, get_task}
use droid_swarm.Scheduler.Gate.{get_task_depth, can_run, agent_failed, retry_due}
use droid_swarm.Scheduler.Policy.{TaskPolicy}
use droid_swarm.Scheduler.Launch.{IsReady, can_run-IsReady}
use droid_swarm.Scheduler.Retry.{agent_failed-refused}
use droid_swarm.Scheduler.Depth.{get_task_depth_total}

abbrev pub config : SchedulerConfig
config = record {
  project_id = "p";
  repo_id = "repo";
  project_root = "/p";
  default_branch = "main";
  budget_max_consumed = some 10;
  max_concurrent_code_agents = 2;
  max_concurrent_agents = 3;
  scheduler_max_task_depth = 4;
}

abbrev pub root : PersistedTask
root = task_in "root" "r" "1" TaskStatus.waiting_on_dependency

abbrev child : PersistedTask
child = record (task_in "child" "r" "2" TaskStatus.completed) { parent_task_id = some "root" }

abbrev pub state : SchedulerState
state = record {
  tasks = ("root", root) ∷ ("child", child) ∷ [];
  dependencies = record { task_id = "root"; depends_on_task_id = "child"; created_at = "2" } ∷ [];
  budget_events = [];
  digests = [];
  ready_queue = "root" ∷ [];
  retry_timers = [];
  budget_limit_reached = false;
  topology_snapshots = 0;
}

abbrev load : Load
load = record { global_active = 1; code_count = 1 }

state-root : get_task "root" state ≡ some root
unfolding get
state-root = refl

root-IsReady : IsReady config load 3 root state
unfolding get get_task_depth
root-IsReady = (
  refl,
  inr (10, refl, refl, omega arith),
  inr (omega arith),
  omega arith,
  (0, refl, omega arith),
  ((child, refl, refl), tt),
)

can_run-IsReady_example :
    ((t : SchedulerState) × (can_run config load 3 "9" root state ≡ some (t, true)))
    ↔ IsReady config load 3 root state
can_run-IsReady_example = can_run-IsReady config load 3 "9" root state

root_runs : (t : SchedulerState) × (can_run config load 3 "9" root state ≡ some (t, true))
root_runs = can_run-IsReady_example.1 root-IsReady

agent_failed-refused_example :
    (has (retry_due "root" (agent_failed "9" "root" state)).ready_queue "root" ≡ true)
    × ((waiting : PersistedTask) × (get_task "root"
            (retry_due "root" (agent_failed "9" "root" state))
          ≡ some waiting)
        × ((config : SchedulerConfig) (load : Load) (fuel : ℕ) (later : String) (t : SchedulerState)
            → can_run config load fuel later waiting
                (retry_due "root" (agent_failed "9" "root" state))
              ≢ some (t, true)))
agent_failed-refused_example = agent_failed-refused "9" "root" root state state-root refl

abbrev rank : String → ℕ
rank id = if id == "child" then 1 else 0

get_task_depth_total_example :
    (depth : ℕ) × (get_task_depth 2 "child" state ≡ some depth) × (depth ≤ rank "child")
unfolding get
get_task_depth_total_example =
    get_task_depth_total state rank
      (λ id parent_id task found up.
        ground (arith, found, up, eq_iff "root" id, eq_iff "child" id, eq_iff "child" parent_id))
      2 "child" (omega arith)

abbrev pub policy : TaskPolicy
policy = record {
  max_depth = none;
  max_children = some 2;
  max_tokens = none;
  max_tool_calls = none;
  timeout_ms = none;
  max_parallel_helpers = none;
  max_same_role_helpers = none;
  local_queue_tolerance = none;
  allowed_tools = none;
  approval_policy = none;
  cloud_escalation_allowed = none;
  priority_bias = none;
}
