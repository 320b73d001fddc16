-- ===== src/Scheduler/Children.antt =====
-- How the scheduler looks for the children of a task
-- (apps/orchestrator/src/scheduler/TaskScheduler.ts).
use droid_swarm.Prelude.{
  ℕ, String, false, ◌==◌, List, [], ◌∷◌, ◌++◌, length, filter, All, filter-append, ◌≡◌, ◌≢◌, refl,
  ap, ◌∙◌, arith, eq_iff,
}
use droid_swarm.Prelude.Rows.{order_by}
use droid_swarm.Runs.Records.{PersistedTask}
use droid_swarm.Runs.Store.{earlier}
use droid_swarm.Scheduler.State.{
  TaskDependencyRecord, SchedulerState, list_dependents, add_dependency,
}
use droid_swarm.Scheduler.Policy.{TaskPolicy, enforce_task_policy, get_policy_child_count}

-- A parent is linked to children one after the other.
abbrev link_all : String → String → List String → SchedulerState → SchedulerState
link_all now parent_id [] s = s
link_all now parent_id (child ∷ children) s =
    link_all now parent_id children (add_dependency now parent_id child s)

add_dependency-dependents :
    (now parent_id child : String) (s : SchedulerState)
    → (child == parent_id) ≡ false
    → list_dependents parent_id (add_dependency now parent_id child s) ≡ list_dependents parent_id s
add_dependency-dependents now parent_id child s other =
    ap (order_by (λ a b. earlier a.created_at b.created_at))
      {y = filter (λ d. d.depends_on_task_id == parent_id) s.dependencies}
      (filter-append (λ d. d.depends_on_task_id == parent_id) s.dependencies _
        ∙ rw other (append_nil (filter (λ d. d.depends_on_task_id == parent_id) s.dependencies)))
  where
    append_nil : (ds : List TaskDependencyRecord) → ds ++ [] ≡ ds
    append_nil [] = refl
    append_nil (d ∷ ds) = ap (λ l. d ∷ l) (append_nil ds)

link_all-dependents :
    (now parent_id : String) (children : List String) (s : SchedulerState)
    → All (λ child. child ≢ parent_id) children
    → list_dependents parent_id (link_all now parent_id children s) ≡ list_dependents parent_id s
link_all-dependents now parent_id [] s other = refl
link_all-dependents now parent_id (child ∷ children) s other =
    link_all-dependents now parent_id children (add_dependency now parent_id child s) other.1
    ∙ add_dependency-dependents now parent_id child s
        (ground (arith, other.0, eq_iff child parent_id))

-- Linking any number of children to a task does not change what its policy answers to a number of
-- requests: the limit on children never counts a child that the task has.
link_all-policy :
    (policy : TaskPolicy) (now : String) (depth requests : ℕ) (task : PersistedTask)
    (children : List String) (s : SchedulerState)
    → All (λ child. child ≢ task.task_id) children
    → (get_policy_child_count task (link_all now task.task_id children s)
        ≡ get_policy_child_count task s)
      × ((enforce_task_policy policy now depth task requests
            (link_all now task.task_id children s)).1
          ≡ (enforce_task_policy policy now depth task requests s).1)
unfolding enforce_task_policy
link_all-policy policy now depth requests task children s other =
    let same = ap length (link_all-dependents now task.task_id children s other) in
    (same, ground (arith, same))
