-- ===== src/Scheduler/Groups.antt =====
-- Groups of tasks that work in parallel on one request: how the fastest result ends the others, and
-- when an arbiter is needed
-- (apps/orchestrator/src/scheduler/TaskScheduler.ts).
use droid_swarm.Prelude.{
  String, Bool, true, false, not, ◌&&◌, ◌||◌, ◌==◌, ltb, leb, if◌then◌else◌, Option, none, some,
  List, [], ◌∷◌, ◌++◌, length, any, all, filter, Map, get, put, get_or,
}
use droid_swarm.Prelude.Sets.{of_list}
use droid_swarm.Audit.Json.{Json, Items, str, bool, nil, cons}
use droid_swarm.Runs.Records.{TaskStatus, PersistedTask}
use droid_swarm.Routing.Roles.{role_id, normalize_swarm_role, get_swarm_role_definition}
use droid_swarm.Supervisor.Agents.{Supervisor, cancel_task}
use droid_swarm.Scheduler.State.{
  TaskDependencyRecord, SchedulerState, get_task, set_task_status, update_task_metadata,
  list_dependencies,
}
use droid_swarm.Scheduler.Stages.{as_text}

-- `task.metadata?.[key]` where it is a text
abbrev pub metadata_text : String → PersistedTask → Option String
metadata_text key task = as_text (get (get_or task.metadata []) key)

abbrev pub as_bool : Option Json → Option Bool
as_bool (some (bool b)) = some b
as_bool _ = none

-- `task.metadata?.last_outcome_success` where it is a Boolean
abbrev pub outcome_success : PersistedTask → Option Bool
outcome_success task = as_bool (get (get_or task.metadata []) "last_outcome_success")

-- A text that is not empty
abbrev pub non_empty : Option String → Option String
non_empty none = none
non_empty (some text) = if text == "" then none else some text

abbrev pub canonical_role_of : PersistedTask → String
canonical_role_of task = get_or (metadata_text "canonical_role" task) (
    role_id
      (normalize_swarm_role (get_or (metadata_text "agent_role" task) "implementation-helper")))

-- The elements by their keys, in the order in which the keys come first; an element without a key
-- is left out.
abbrev pub push_group {ℓ} : {A : Type ℓ} → Option String → A → Map (List A) → Map (List A)
push_group none x groups = groups
push_group (some key) x groups = put groups key (get_or (get groups key) [] ++ (x ∷ []))

unfoldable pub group_by {ℓ} :
    {A : Type ℓ} → (A → Option String) → Map (List A) → List A → Map (List A)
group_by key groups [] = groups
group_by key groups (x ∷ xs) = group_by key (push_group (key x) x groups) xs

-- The tasks of dependency rows, those that are there
abbrev pub present : Option PersistedTask → List PersistedTask → List PersistedTask
present none rest = rest
present (some task) rest = task ∷ rest

abbrev pub dependency_tasks : List TaskDependencyRecord → SchedulerState → List PersistedTask
dependency_tasks [] s = []
dependency_tasks (d ∷ ds) s = present (get_task d.depends_on_task_id s) (dependency_tasks ds s)

abbrev pub in_group : String → PersistedTask → Bool
in_group group task = elim (metadata_text "parallel_group" task) [
  | none ↦ false
  | some text ↦ text == group
]

-- `getParallelGroupTasks`
unfoldable pub get_parallel_group_tasks :
    Option String → String → SchedulerState → List PersistedTask
get_parallel_group_tasks none group s = []
get_parallel_group_tasks (some parent_id) group s =
    if parent_id == ""
    then []
    else filter (in_group group) (dependency_tasks (list_dependencies parent_id s) s)

-- `queued`, `planning` or `running`
abbrev pub is_unfinished : TaskStatus → Bool
is_unfinished TaskStatus.queued = true
is_unfinished TaskStatus.planning = true
is_unfinished TaskStatus.running = true
is_unfinished _ = false

-- One round of the loop of `maybeCollapseParallelGroup` on the tables
unfoldable pub collapse_one : String → String → PersistedTask → SchedulerState → SchedulerState
collapse_one now winner sibling s =
    if is_unfinished sibling.status
    then update_task_metadata now sibling.task_id
        (put
          (put (get_or sibling.metadata []) "parallel_resolution"
            (str "accepted_fastest_verified_result"))
          "resolved_by_task_id" (str winner))
        (set_task_status now sibling.task_id TaskStatus.cancelled s)
    else s

unfoldable pub collapse_all : String → String → List PersistedTask → SchedulerState → SchedulerState
collapse_all now winner [] s = s
collapse_all now winner (sibling ∷ siblings) s =
    collapse_all now winner siblings (collapse_one now winner sibling s)

-- What the same loop does to the supervisor
unfoldable pub cancel_all : String → List PersistedTask → Supervisor → Supervisor
cancel_all now [] supervisor = supervisor
cancel_all now (sibling ∷ siblings) supervisor = cancel_all now siblings (
    if is_unfinished sibling.status
    then (cancel_task now sibling.task_id supervisor).0
    else supervisor)

abbrev pub has_failed : PersistedTask → Bool
has_failed task = elim (outcome_success task) [ none ↦ false | some success ↦ not success ]

-- `canonicalRole === 'reviewer' || canonicalRole === 'verifier'`
abbrev pub is_judging : String → Bool
is_judging role = role == "reviewer" || role == "verifier"

abbrev pub may_collapse : PersistedTask → Bool → Bool
may_collapse task success =
    success
    && (get_swarm_role_definition (canonical_role_of task)).allow_parallel_instances
    && not (is_judging (canonical_role_of task))

abbrev pub siblings_of : PersistedTask → String → SchedulerState → List PersistedTask
siblings_of task group s =
    filter (λ sibling. not (sibling.task_id == task.task_id))
      (get_parallel_group_tasks task.parent_task_id group s)

-- `maybeCollapseParallelGroup`, of a task in the group and of one in none
abbrev pub collapse_group :
    String
    → PersistedTask
    → Bool
    → SchedulerState
    → Supervisor
    → Option String
    → SchedulerState × Supervisor
collapse_group now task success s supervisor none = (s, supervisor)
collapse_group now task success s supervisor (some group) =
    if may_collapse task success && not (any has_failed (siblings_of task group s))
    then (
      collapse_all now task.task_id (siblings_of task group s) s,
      cancel_all now (siblings_of task group s) supervisor,
    )
    else (s, supervisor)

unfoldable pub maybe_collapse_parallel_group :
    String → PersistedTask → Bool → SchedulerState → Supervisor → SchedulerState × Supervisor
maybe_collapse_parallel_group now task success s supervisor =
    collapse_group now task success s supervisor (non_empty (metadata_text "parallel_group" task))

abbrev pub outcome_is : Bool → PersistedTask → Bool
outcome_is flag task = elim (outcome_success task) [
  | none ↦ false
  | some success ↦ if success then flag else not flag
]

abbrev pub keep_some {ℓ} : {A : Type ℓ} → Option A → List A → List A
keep_some none rest = rest
keep_some (some x) rest = x ∷ rest

abbrev pub reasons : List PersistedTask → List String
reasons [] = []
reasons (task ∷ tasks) =
    keep_some (non_empty (metadata_text "last_outcome_reason" task)) (reasons tasks)

-- `parallelGroupNeedsArbiter` of a group whose outcomes are all recorded
unfoldable pub parallel_group_needs_arbiter : String → List PersistedTask → Bool
parallel_group_needs_arbiter role group =
    is_judging role
    && ((any (outcome_is true) group && any (outcome_is false) group)
        || ltb 1 (length (of_list [] (reasons group))))

abbrev pub is_recorded : PersistedTask → Bool
is_recorded task = elim (outcome_success task) [ none ↦ false | some success ↦ true ]

abbrev pub first_role : List PersistedTask → String
first_role [] = role_id (normalize_swarm_role "implementation-helper")
first_role (task ∷ tasks) = canonical_role_of task

-- A group that the loop of `maybeStartArbitration` does not pass over
abbrev pub is_dispute : List PersistedTask → Bool
is_dispute group =
    leb 2 (length group)
    && all is_recorded group
    && parallel_group_needs_arbiter (first_role group) group

unfoldable pub find_dispute : Map (List PersistedTask) → Option (String × List PersistedTask)
find_dispute [] = none
find_dispute (entry ∷ groups) =
    if is_dispute entry.1 then some (entry.0, entry.1) else find_dispute groups

abbrev pub find_group_dispute : List PersistedTask → Option (String × List PersistedTask)
find_group_dispute dependencies =
    find_dispute
      (group_by (λ task. non_empty (metadata_text "parallel_group" task)) [] dependencies)

abbrev pub outcome_summary : PersistedTask → String
outcome_summary task = get_or (metadata_text "last_outcome_summary" task) task.name

abbrev pub str_items : List String → Items
str_items [] = nil
str_items (text ∷ rest) = cons (str text) (str_items rest)
