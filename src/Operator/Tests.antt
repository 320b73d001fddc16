-- ===== src/Operator/Tests.antt =====
-- Commands of operators at concrete texts, and the theorems about them there.
use droid_swarm.Prelude.{
  String, false, ◌==◌, if◌then◌else◌, length, suc, none, some, [], ◌∷◌, get, ◌≡◌, refl,
}
use droid_swarm.Prelude.Words.{is_space, trim, lower, split_spaces}
use droid_swarm.Runs.Records.{TaskStatus, Priority, PersistedTask}
use droid_swarm.Supervisor.Registry.{get_active_agents}
use droid_swarm.Operator.Intents.{
  ActionType, OperatorControlAction, command, command_error, note, parse_operator_intent,
}
use droid_swarm.Operator.Actions.{Orchestrator, execute}
use droid_swarm.Operator.RoundTrip.{
  print_command, level_of, reason_of, parse_operator_intent-print_command,
}
use droid_swarm.Operator.Effects.{task_after, agents_after, removed_by, execute-effects}

parse_operator_intent-print_command_example :
    parse_operator_intent
      (print_command ActionType.reprioritize "t1" Priority.high ("too" ∷ "slow" ∷ []))
      none
    ≡ command
        (record {
          type = ActionType.reprioritize;
          task_id = some "t1";
          priority = level_of ActionType.reprioritize Priority.high;
          reason = reason_of ("too" ∷ "slow" ∷ []);
        })
        (some "t1")
unfolding is_space
parse_operator_intent-print_command_example =
    parse_operator_intent-print_command ActionType.reprioritize "t1" Priority.high
      ("too" ∷ "slow" ∷ []) none (refl, (refl, tt))
      ((refl, (refl, (refl, tt))), ((refl, (refl, (refl, (refl, tt)))), tt))

-- A text without a slash is a note, and a level that is not known is refused.
plain : parse_operator_intent " hello " (some "t1") ≡ note " hello " (some "t1")
unfolding parse_operator_intent trim
plain = refl

unknown_level :
    parse_operator_intent "/Priority t1 never" none
    ≡ command_error "Priority must be one of low, medium, high, urgent." (some "t1")
unfolding parse_operator_intent trim split_spaces lower
unknown_level = refl

abbrev task : PersistedTask
task = record {
  task_id = "t1";
  run_id = "r";
  project_id = none;
  repo_id = none;
  root_path = none;
  branch = none;
  workspace_id = none;
  parent_task_id = none;
  name = "task";
  status = TaskStatus.running;
  priority = Priority.low;
  created_at = "0";
  updated_at = "0";
  metadata = none;
}

abbrev orchestrator : Orchestrator
orchestrator = record {
  state = record {
    tasks = ("t1", task) ∷ [];
    dependencies = [];
    budget_events = [];
    digests = [];
    ready_queue = [];
    retry_timers = [];
    budget_limit_reached = false;
    topology_snapshots = 0;
  };
  supervisor = record { agents = []; role_counters = []; remote_target_cursor = 0; registry = [] };
  actions = [];
}

abbrev cancel : OperatorControlAction
cancel = record {
  type = ActionType.cancel_task;
  task_id = some "t1";
  priority = none;
  reason = none;
}

execute-effects_example :
    let (after, outcome) = execute "1" cancel "t1" "ann" "stop" orchestrator in
    let agents = get_active_agents "t1" orchestrator.supervisor.registry in
    (length after.actions ≡ suc (length orchestrator.actions))
    × ((k : String)
        → get after.state.tasks k ≡ (
            if "t1" == k
            then some (task_after "1" cancel.type cancel.priority task)
            else get orchestrator.state.tasks k))
    × (get_active_agents "t1" after.supervisor.registry ≡ agents_after cancel.type agents)
    × (outcome.removed_agents ≡ removed_by cancel.type agents)
unfolding get
execute-effects_example = execute-effects "1" "t1" "ann" "stop" cancel orchestrator task refl refl
