-- ===== src/Supervisor/Registry.antt =====
-- `WorkerRegistry` of apps/orchestrator/src/worker-registry.ts.
use droid_swarm.Prelude.{String, Option, none, some, List, [], Map, get, put}
use droid_swarm.Prelude.Sets.{of_list, delete}

pub record TaskRecord : Type 0 where
  pub task_id : String
  pub title : String
  pub description : String
  pub task_type : String
  pub priority : String
  pub created_at : String

pub record WorkerState : Type 0 where
  pub task : TaskRecord
  pub active_agents : List String
  pub last_updated : String

-- What `register` makes of the state that the task has
abbrev pub registered : String → TaskRecord → Option WorkerState → WorkerState
registered now task none = record { task = task; active_agents = []; last_updated = now }
registered now task (some existing) = record existing { task = task; last_updated = now }

unfoldable pub register : String → TaskRecord → Map WorkerState → Map WorkerState
register now task tasks = put tasks task.task_id (registered now task (get tasks task.task_id))

-- `assignAgents` for the state that the task has; an unknown task is an exception.
abbrev pub assigned :
    String → String → List String → Option WorkerState → Map WorkerState → Option (Map WorkerState)
assigned now task_id agent_names none tasks = none
assigned now task_id agent_names (some state) tasks = some (
    put tasks task_id (record state { active_agents = of_list [] agent_names; last_updated = now }))

unfoldable pub assign_agents :
    String → String → List String → Map WorkerState → Option (Map WorkerState)
assign_agents now task_id agent_names tasks =
    assigned now task_id agent_names (get tasks task_id) tasks

-- `clearAgents`, without the copy that it returns
abbrev pub cleared : String → String → Option WorkerState → Map WorkerState → Map WorkerState
cleared now task_id none tasks = tasks
cleared now task_id (some state) tasks =
    put tasks task_id (record state { active_agents = []; last_updated = now })

unfoldable pub clear_agents : String → String → Map WorkerState → Map WorkerState
clear_agents now task_id tasks = cleared now task_id (get tasks task_id) tasks

-- `get(taskId)?.activeAgents ?? []`
abbrev pub agents_of : Option WorkerState → List String
agents_of none = []
agents_of (some state) = state.active_agents

abbrev pub get_active_agents : String → Map WorkerState → List String
get_active_agents task_id tasks = agents_of (get tasks task_id)

-- `removeAgent`
abbrev pub removed :
    String → String → String → Option WorkerState → Map WorkerState → Map WorkerState
removed now task_id agent_name none tasks = tasks
removed now task_id agent_name (some state) tasks =
    put tasks task_id
      (record state { active_agents = delete state.active_agents agent_name; last_updated = now })

unfoldable pub remove_agent : String → String → String → Map WorkerState → Map WorkerState
remove_agent now task_id agent_name tasks = removed now task_id agent_name (get tasks task_id) tasks
