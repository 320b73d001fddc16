-- ===== src/Scheduler/Gate.antt =====
-- `canRun` of apps/orchestrator/src/scheduler/TaskScheduler.ts and what it calls, `schedule` and the
-- retries.
use Prim.Native.Nat.{suc, zero}
use droid_swarm.Prelude.{
  ℕ, String, Bool, true, false, not, ◌&&◌, ◌||◌, ◌==◌, ltb, leb, if◌then◌else◌, ◌<>◌, decimal,
  Option, none, some, List, [], ◌∷◌, put, get_or,
}
use droid_swarm.Prelude.Sets.{has, add, delete}
use droid_swarm.Audit.Json.{str}
use droid_swarm.Runs.Records.{TaskStatus, PersistedTask, task_status_text}
use droid_swarm.Scheduler.State.{
  TaskDependencyRecord, SchedulerConfig, Load, SchedulerState, get_task, set_task_status,
  update_task_metadata, list_dependencies, record_budget_limit, get_run_budget_consumed,
  build_and_persist_digest,
}

-- `dependencySuccessStatuses.includes(status)`
abbrev pub dependency_success : TaskStatus → Bool
dependency_success TaskStatus.completed = true
dependency_success TaskStatus.verified = true
dependency_success _ = false

-- `dependencyFailureStatuses.includes(status)`
abbrev pub dependency_failure : TaskStatus → Bool
dependency_failure TaskStatus.failed = true
dependency_failure TaskStatus.cancelled = true
dependency_failure _ = false

-- `['queued', 'planning', 'waiting_on_dependency'].includes(status)`
abbrev pub runnable : TaskStatus → Bool
runnable TaskStatus.queued = true
runnable TaskStatus.planning = true
runnable TaskStatus.waiting_on_dependency = true
runnable _ = false

abbrev pub is_queued : TaskStatus → Bool
is_queued TaskStatus.queued = true
is_queued _ = false

abbrev pub is_planning : TaskStatus → Bool
is_planning TaskStatus.planning = true
is_planning _ = false

abbrev pub is_waiting : TaskStatus → Bool
is_waiting TaskStatus.waiting_on_dependency = true
is_waiting _ = false

-- `status === 'running' || status === 'cancelled'`
abbrev pub busy_or_cancelled : TaskStatus → Bool
busy_or_cancelled TaskStatus.running = true
busy_or_cancelled TaskStatus.cancelled = true
busy_or_cancelled _ = false

-- `getTaskDepth`: with too little fuel there is no result, as in a loop of parents.
unfoldable pub get_task_depth : ℕ → String → SchedulerState → Option ℕ
get_task_depth zero task_id s = none
get_task_depth (suc fuel) task_id s = elim (get_task task_id s) [
  | none ↦ some 0
  | some current ↦ elim current.parent_task_id [
    | none ↦ some 0
    | some parent_id ↦
        let rest = get_task_depth fuel parent_id s in
        if parent_id == ""
        then some 0
        else elim rest [ none ↦ none | some depth ↦ some (suc depth) ]
  ]
]

-- The result of `evaluateDependencies`
pub data Evaluation : Type 0 where
  satisfied unsatisfied : Evaluation
  blocking : PersistedTask → Evaluation

-- One round of the loop: the candidate, and what the rest of the loop gives
abbrev pub judge : Option PersistedTask → Evaluation → Evaluation
judge none rest = unsatisfied
judge (some candidate) rest =
    if dependency_success candidate.status
    then rest
    else if dependency_failure candidate.status
    then blocking candidate
    else unsatisfied

unfoldable pub evaluate_dependencies : List TaskDependencyRecord → SchedulerState → Evaluation
evaluate_dependencies [] s = satisfied
evaluate_dependencies (d ∷ ds) s =
    judge (get_task d.depends_on_task_id s) (evaluate_dependencies ds s)

abbrev pub dependency_reason : PersistedTask → String
dependency_reason dependency =
    "Dependency " <> dependency.task_id <> " " <> task_status_text dependency.status

-- `handleDependencyFailure`
unfoldable pub handle_dependency_failure :
    String → PersistedTask → PersistedTask → SchedulerState → SchedulerState
handle_dependency_failure now task dependency s =
    let reason = dependency_reason dependency in
    let failed = set_task_status now task.task_id TaskStatus.failed (
      update_task_metadata now task.task_id
        (put (get_or task.metadata []) "blocked_reason" (str reason)) s) in
    record_budget_limit task.task_id reason 0 (elim (get_task task.task_id failed) [
      | none ↦ failed
      | some refreshed ↦ build_and_persist_digest refreshed.task_id reason failed
    ])

-- `enforceBudgetLimit`
unfoldable pub enforce_budget_limit :
    SchedulerConfig → String → PersistedTask → SchedulerState → SchedulerState × Bool
enforce_budget_limit config now task s = elim config.budget_max_consumed [
  | none ↦ (s, true)
  | some limit ↦
      if s.budget_limit_reached
      then (s, false)
      else if leb limit (get_run_budget_consumed s)
      then (
        record (set_task_status now task.task_id TaskStatus.waiting_on_human (
            record_budget_limit task.task_id
              ("Run budget limit ("
                <> decimal limit
                <> ") reached ("
                <> decimal (get_run_budget_consumed s)
                <> ")")
              (get_run_budget_consumed s) s)) { budget_limit_reached = true },
        false,
      )
      else (s, true)
]

-- The two limits on concurrent agents
abbrev pub code_limit_reached : SchedulerConfig → Load → Bool
code_limit_reached config load =
    ltb 0 config.max_concurrent_code_agents && leb config.max_concurrent_code_agents load.code_count

abbrev pub agent_limit_reached : SchedulerConfig → Load → Bool
agent_limit_reached config load = leb config.max_concurrent_agents load.global_active

-- What `canRun` does about the evaluation of a task's dependencies, and about having none
abbrev pub act_on : String → PersistedTask → SchedulerState → Evaluation → SchedulerState × Bool
act_on now task s (blocking dependency) = (handle_dependency_failure now task dependency s, false)
act_on now task s unsatisfied = (
  if is_waiting task.status
      then s
      else set_task_status now task.task_id TaskStatus.waiting_on_dependency s,
  false,
)
act_on now task s satisfied = (
  if is_queued task.status then s else set_task_status now task.task_id TaskStatus.queued s,
  true,
)

abbrev pub check_dependencies :
    String → PersistedTask → SchedulerState → List TaskDependencyRecord → SchedulerState × Bool
check_dependencies now task s [] = (
  if is_planning task.status then set_task_status now task.task_id TaskStatus.queued s else s,
  is_queued task.status || is_planning task.status,
)
check_dependencies now task s (d ∷ ds) = act_on now task s (evaluate_dependencies (d ∷ ds) s)

-- What `canRun` does after `enforceBudgetLimit`, by its result; there is no result when the parents
-- of the task go round in a circle.
unfoldable pub after_budget :
    SchedulerConfig
    → Load
    → ℕ
    → String
    → PersistedTask
    → SchedulerState
    → Bool
    → Option (SchedulerState × Bool)
after_budget config load fuel now task s within =
    if not within
    then some (s, false)
    else if code_limit_reached config load
    then some (
      record_budget_limit task.task_id
          ("Concurrent code agent limit ("
            <> decimal config.max_concurrent_code_agents
            <> ") reached")
          load.code_count s,
      false,
    )
    else if agent_limit_reached config load
    then some (
      record_budget_limit task.task_id
          ("Global concurrent agent limit (" <> decimal config.max_concurrent_agents <> ") reached")
          load.global_active s,
      false,
    )
    else elim (get_task_depth fuel task.task_id s) [
      | none ↦ none
      | some depth ↦
          if leb config.scheduler_max_task_depth depth
          then some (set_task_status now task.task_id TaskStatus.waiting_on_human s, false)
          else if not (runnable task.status)
          then some (s, false)
          else some (check_dependencies now task s (list_dependencies task.task_id s))
    ]

-- `canRun`
unfoldable pub can_run :
    SchedulerConfig
    → Load
    → ℕ
    → String
    → PersistedTask
    → SchedulerState
    → Option (SchedulerState × Bool)
can_run config load fuel now task s =
    if busy_or_cancelled task.status
    then some (s, false)
    else let budget = enforce_budget_limit config now task s in
      after_budget config load fuel now task budget.0 budget.1

-- `scheduleRetry`
unfoldable pub schedule_retry : String → SchedulerState → SchedulerState
schedule_retry task_id s =
    if has s.retry_timers task_id then s else record s { retry_timers = add s.retry_timers task_id }

-- `clearRetry`
unfoldable pub clear_retry : String → SchedulerState → SchedulerState
clear_retry task_id s =
    if has s.retry_timers task_id
    then record s { retry_timers = delete s.retry_timers task_id }
    else s

-- A timer of `scheduleRetry` fires; `schedule` follows.
unfoldable pub retry_due : String → SchedulerState → SchedulerState
retry_due task_id s = record s {
  retry_timers = delete s.retry_timers task_id;
  ready_queue = add s.ready_queue task_id;
}

-- What `handleAgentResult` does about a result that failed without requests
unfoldable pub agent_failed : String → String → SchedulerState → SchedulerState
agent_failed now task_id s =
    schedule_retry task_id (set_task_status now task_id TaskStatus.waiting_on_human s)
