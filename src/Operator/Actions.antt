-- ===== src/Operator/Actions.antt =====
-- `OperatorActionService` of apps/orchestrator/src/operator/OperatorActionService.ts, on the tables of
-- the orchestrator and its supervisor.
use droid_swarm.Prelude.{String, Bool, true, Option, none, some, List, [], ◌∷◌, ◌++◌, get, put}
use droid_swarm.Runs.Records.{TaskStatus, Priority, PersistedTask}
use droid_swarm.Scheduler.State.{SchedulerState, set_task_status}
use droid_swarm.Supervisor.Agents.{Supervisor}
use droid_swarm.Supervisor.Agents
use droid_swarm.Operator.Intents.{
  ActionType, cancel_task, request_review, reprioritize, OperatorControlAction,
}

-- The type of a recorded action, with the one of a rejected command
pub data RecordedType : Type 0 where
  operator_action : ActionType → RecordedType
  invalid_command : RecordedType

-- `OperatorControlActionRecord`, without its id and its run
pub record OperatorActionRecord : Type 0 where
  pub task_id : Option String
  pub action_type : RecordedType
  pub detail : String
  pub operator : String
  pub priority : Option Priority
  pub command : Option String
  pub created_at : String

pub record OperatorActionOutcome : Type 0 where
  pub action_type : ActionType
  pub detail : String
  pub removed_agents : Option (List String)
  pub review_requested : Option Bool
  pub priority : Option Priority

pub record Orchestrator : Type 0 where
  pub state : SchedulerState
  pub supervisor : Supervisor
  pub actions : List OperatorActionRecord

-- The table with another priority for the row that was found
abbrev pub with_priority :
    String → Priority → SchedulerState → Option PersistedTask → SchedulerState
with_priority now priority s none = s
with_priority now priority s (some existing) = record s {
  tasks = put s.tasks existing.task_id (record existing { priority = priority; updated_at = now });
}

-- `updateTaskPriority`
unfoldable pub update_task_priority : String → String → Priority → SchedulerState → SchedulerState
update_task_priority now task_id priority s = with_priority now priority s (get s.tasks task_id)

-- `recordOperatorAction`
abbrev pub record_operator_action : OperatorActionRecord → Orchestrator → Orchestrator
record_operator_action action o = record o { actions = o.actions ++ (action ∷ []) }

abbrev pub reprioritized : String → String → Option Priority → SchedulerState → SchedulerState
reprioritized now task_id none s = s
reprioritized now task_id (some priority) s = update_task_priority now task_id priority s

abbrev pub perform :
    ActionType
    → String
    → String
    → String
    → Option Priority
    → Orchestrator
    → Orchestrator × OperatorActionOutcome
perform cancel_task now task_id detail priority o =
    let (supervisor, removed) = Agents.cancel_task now task_id o.supervisor in
    (
      record o {
        state = set_task_status now task_id TaskStatus.cancelled o.state;
        supervisor = supervisor;
      },
      record {
        action_type = cancel_task;
        detail = detail;
        removed_agents = some removed;
        review_requested = none;
        priority = none;
      },
    )
perform request_review now task_id detail priority o = (
  record o { state = set_task_status now task_id TaskStatus.in_review o.state },
  record {
    action_type = request_review;
    detail = detail;
    removed_agents = none;
    review_requested = some true;
    priority = none;
  },
)
perform reprioritize now task_id detail priority o = (
  record o { state = reprioritized now task_id priority o.state },
  record {
    action_type = reprioritize;
    detail = detail;
    removed_agents = none;
    review_requested = none;
    priority = priority;
  },
)

-- `execute`
unfoldable pub execute :
    String
    → OperatorControlAction
    → String
    → String
    → String
    → Orchestrator
    → Orchestrator × OperatorActionOutcome
execute now action task_id operator_name detail o =
    perform action.type now task_id detail action.priority (
      record_operator_action
        (record {
          task_id = some task_id;
          action_type = operator_action action.type;
          detail = detail;
          operator = operator_name;
          priority = action.priority;
          command = none;
          created_at = now;
        })
        o)

-- `recordRejectedCommand`
unfoldable pub record_rejected_command :
    String → Option String → String → String → String → Orchestrator → Orchestrator
record_rejected_command now task_id operator_name command reason o =
    record_operator_action
      (record {
        task_id = task_id;
        action_type = invalid_command;
        detail = reason;
        operator = operator_name;
        priority = none;
        command = some command;
        created_at = now;
      })
      o
