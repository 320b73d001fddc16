-- ===== src/Scheduler/State.antt =====
-- The scheduler's state and the services it calls: apps/orchestrator/src/scheduler/TaskScheduler.ts
-- and apps/orchestrator/src/persistence/service.ts.
use droid_swarm.Prelude.{
  ℕ, ◌+◌, String, Bool, ◌==◌, Option, none, some, List, [], ◌∷◌, ◌++◌, filter, Map, get, put,
}
use droid_swarm.Prelude.Rows.{order_by}
use droid_swarm.Runs.Records.{TaskStatus, Metadata, PersistedTask}
use droid_swarm.Runs.Store.{earlier}

pub record TaskDependencyRecord : Type 0 where
  pub task_id : String
  pub depends_on_task_id : String
  pub created_at : String

pub record BudgetEvent : Type 0 where
  pub task_id : String
  pub detail : String
  pub consumed : ℕ

-- The settings of `OrchestratorConfig` that the scheduler reads here
pub record SchedulerConfig : Type 0 where
  pub project_id : String
  pub repo_id : String
  pub project_root : String
  pub default_branch : String
  pub budget_max_consumed : Option ℕ
  pub max_concurrent_code_agents : ℕ
  pub max_concurrent_agents : ℕ
  pub scheduler_max_task_depth : ℕ

-- What `AgentSupervisor` answers: all active agents, and those in a role for code
pub record Load : Type 0 where
  pub global_active : ℕ
  pub code_count : ℕ

-- The tables, the sets `readyQueue` and `retryTimers`, and `budgetLimitReached`. A digest is its
-- task and its summary; a topology snapshot is only counted.
pub record SchedulerState : Type 0 where
  pub tasks : Map PersistedTask
  pub dependencies : List TaskDependencyRecord
  pub budget_events : List BudgetEvent
  pub digests : List (String × String)
  pub ready_queue : List String
  pub retry_timers : List String
  pub budget_limit_reached : Bool
  pub topology_snapshots : ℕ

-- `getTask`
abbrev pub get_task : String → SchedulerState → Option PersistedTask
get_task task_id s = get s.tasks task_id

-- `setTaskStatus`
unfoldable pub set_task_status : String → String → TaskStatus → SchedulerState → SchedulerState
set_task_status now task_id status s = elim (get s.tasks task_id) [
  | none ↦ s
  | some existing ↦ record s {
    tasks = put s.tasks existing.task_id (record existing { status = status; updated_at = now });
  }
]

-- `updateTaskMetadata`
unfoldable pub update_task_metadata : String → String → Metadata → SchedulerState → SchedulerState
update_task_metadata now task_id metadata s = elim (get s.tasks task_id) [
  | none ↦ s
  | some existing ↦ record s {
    tasks =
        put s.tasks existing.task_id
          (record existing { metadata = some metadata; updated_at = now });
  }
]

-- `listDependencies`
abbrev pub list_dependencies : String → SchedulerState → List TaskDependencyRecord
list_dependencies task_id s =
    order_by (λ a b. earlier a.created_at b.created_at)
      (filter (λ d. d.task_id == task_id) s.dependencies)

-- `listDependents`
abbrev pub list_dependents : String → SchedulerState → List TaskDependencyRecord
list_dependents task_id s =
    order_by (λ a b. earlier a.created_at b.created_at)
      (filter (λ d. d.depends_on_task_id == task_id) s.dependencies)

-- `addDependency`; its id is random, so it replaces no row.
abbrev pub add_dependency : String → String → String → SchedulerState → SchedulerState
add_dependency now task_id depends_on_task_id s = record s {
  dependencies =
      s.dependencies
      ++ (record { task_id = task_id; depends_on_task_id = depends_on_task_id; created_at = now }
          ∷ []);
}

-- `recordBudgetLimit`
abbrev pub record_budget_limit : String → String → ℕ → SchedulerState → SchedulerState
record_budget_limit task_id detail consumed s = record s {
  budget_events =
      s.budget_events ++ (record { task_id = task_id; detail = detail; consumed = consumed } ∷ []);
}

abbrev pub sum_consumed : List BudgetEvent → ℕ
sum_consumed [] = 0
sum_consumed (e ∷ es) = e.consumed + sum_consumed es

-- `getRunBudgetConsumed`
abbrev pub get_run_budget_consumed : SchedulerState → ℕ
get_run_budget_consumed s = sum_consumed s.budget_events

-- `buildAndPersistDigest`
abbrev pub build_and_persist_digest : String → String → SchedulerState → SchedulerState
build_and_persist_digest task_id summary s = record s {
  digests = s.digests ++ ((task_id, summary) ∷ []);
}
