-- ===== src/Scheduler/Resolve.antt =====
-- `maybeStartArbitration` and `resolveParentIfReady`
-- (apps/orchestrator/src/scheduler/TaskScheduler.ts).
use droid_swarm.Prelude.{
  String, Bool, true, false, if◌then◌else◌, ◌<>◌, join, Option, none, some, List, [], ◌∷◌, map,
}
use droid_swarm.Prelude.Sets.{add}
use droid_swarm.Audit.Json.{str, arr}
use droid_swarm.Runs.Records.{TaskStatus, RunRecord, PersistedTask}
use droid_swarm.Scheduler.State.{
  TaskDependencyRecord, SchedulerConfig, SchedulerState, get_task, set_task_status,
  list_dependencies,
}
use droid_swarm.Scheduler.Gate.{
  is_waiting, Evaluation, satisfied, unsatisfied, blocking, evaluate_dependencies,
  handle_dependency_failure,
}
use droid_swarm.Scheduler.Stages.{
  arbitration, create_stage_task, has_stage_dependency, digest_of, snapshot,
}
use droid_swarm.Scheduler.Groups.{
  non_empty, dependency_tasks, first_role, find_group_dispute, outcome_summary, str_items,
}

module _ (config : SchedulerConfig) (run : RunRecord) (now arbiter_id : String) where
  -- What `maybeStartArbitration` does about a dispute that no arbiter is on
  unfoldable pub start_arbitration :
      PersistedTask → String → List PersistedTask → SchedulerState → SchedulerState
  start_arbitration parent group members s =
      let created =
        create_stage_task config run now arbiter_id parent arbitration "arbiter"
          ("Resolve disagreement for " <> first_role members <> " outputs")
          (some (join " | " (map outcome_summary members)))
          (("parallel_group", str group)
            ∷ ("canonical_role", str "arbiter")
            ∷ ("arbitration_role", str (first_role members))
            ∷ ("arbitration_children", arr (str_items (map (λ task. task.task_id) members)))
            ∷ [])
          s in
      snapshot (
        set_task_status now parent.task_id TaskStatus.waiting_on_dependency
          (record created { ready_queue = add created.ready_queue arbiter_id }))

  abbrev pub arbitrate :
      PersistedTask → SchedulerState → Option (String × List PersistedTask) → SchedulerState × Bool
  arbitrate parent s none = (s, false)
  arbitrate parent s (some (group, members)) =
      if has_stage_dependency parent arbitration s
      then (s, true)
      else (start_arbitration parent group members s, true)

  -- `maybeStartArbitration`
  unfoldable pub maybe_start_arbitration :
      PersistedTask → List PersistedTask → SchedulerState → SchedulerState × Bool
  maybe_start_arbitration parent dependencies s =
      arbitrate parent s (find_group_dispute dependencies)

  -- The last lines of `resolveParentIfReady`
  abbrev pub complete_parent : PersistedTask → SchedulerState → SchedulerState
  complete_parent parent s =
      digest_of parent.task_id (parent.name <> " completed")
        (snapshot (set_task_status now parent.task_id TaskStatus.completed s))

  abbrev pub unless_arbitrated : PersistedTask → Bool → SchedulerState × Bool → SchedulerState
  unless_arbitrated parent done arbitrated =
      if arbitrated.1
      then arbitrated.0
      else if done
      then complete_parent parent arbitrated.0
      else arbitrated.0

  abbrev pub resolve_by :
      PersistedTask → List TaskDependencyRecord → SchedulerState → Evaluation → SchedulerState
  resolve_by parent dependencies s (blocking dependency) =
      handle_dependency_failure now parent dependency s
  resolve_by parent dependencies s satisfied =
      unless_arbitrated parent true
        (maybe_start_arbitration parent (dependency_tasks dependencies s) s)
  resolve_by parent dependencies s unsatisfied =
      unless_arbitrated parent false
        (maybe_start_arbitration parent (dependency_tasks dependencies s) s)

  abbrev pub resolve_found : SchedulerState → Option PersistedTask → SchedulerState
  resolve_found s none = s
  resolve_found s (some parent) =
      if is_waiting parent.status
      then resolve_by parent (list_dependencies parent.task_id s) s
          (evaluate_dependencies (list_dependencies parent.task_id s) s)
      else s

  abbrev pub resolve_named : SchedulerState → Option String → SchedulerState
  resolve_named s none = s
  resolve_named s (some parent_id) = resolve_found s (get_task parent_id s)

  -- `resolveParentIfReady`
  unfoldable pub resolve_parent_if_ready : PersistedTask → SchedulerState → SchedulerState
  resolve_parent_if_ready task s = resolve_named s (non_empty task.parent_task_id)
