-- ===== src/Scheduler/Arbiter.antt =====
-- What follows an arbitration (apps/orchestrator/src/scheduler/TaskScheduler.ts).
use droid_swarm.Prelude.{
  String, Bool, true, false, ◌==◌, some, List, [], ◌∷◌, ◌<>◌, join, map, any, filter, All, get,
  get-put, ◌≡◌, ◌≢◌, refl, sym, ap, ◌∙◌, inl, inr, arith, Bool-cases, Option-cases, eq_iff, eq_refl,
}
use droid_swarm.Prelude.Sets.{has, add, has-add}
use droid_swarm.Prelude.Rows.{map_option, put-IsTable, get-key, order_by-All}
use droid_swarm.Audit.Json.{str, arr}
use droid_swarm.Runs.Records.{TaskStatus, RunRecord, PersistedTask}
use droid_swarm.Runs.Store.{earlier}
use droid_swarm.Scheduler.State.{
  TaskDependencyRecord, SchedulerConfig, SchedulerState, get_task, set_task_status,
  list_dependencies, list_dependents,
}
use droid_swarm.Scheduler.Gate.{
  is_waiting, Evaluation, satisfied, unsatisfied, blocking, evaluate_dependencies,
}
use droid_swarm.Scheduler.Stages.{
  Stage, arbitration, snapshot, in_stage, has_stage_dependency, create_task, create_stage_task,
}
use droid_swarm.Scheduler.Tables.{Tasks, with_status, set_found, set_missing, set_task_status-get}
use droid_swarm.Scheduler.Groups.{
  non_empty, first_role, outcome_summary, str_items, dependency_tasks, find_group_dispute,
}
use droid_swarm.Scheduler.Resolve.{
  start_arbitration, arbitrate, maybe_start_arbitration, unless_arbitrated, resolve_by,
  resolve_found, resolve_named, resolve_parent_if_ready,
}
use droid_swarm.Scheduler.Results.{WorkerResult, TaskScheduler, record_outcome}
use droid_swarm.Scheduler.Handlers.{
  FreshIds, resolve_and_snapshot, parent_of, arbitration_outcome, arbitration_result,
  handle_arbitration_result,
}
use droid_swarm.Scheduler.Critic.{parent-cases}

-- No dependency has failed.
abbrev pub is_blocking : Evaluation → Bool
is_blocking (blocking dependency) = true
is_blocking _ = false

rows-own :
    (id : String) (ds : List TaskDependencyRecord)
    → All (λ d. d.depends_on_task_id ≡ id) (filter (λ d. d.depends_on_task_id == id) ds)
rows-own id [] = tt
rows-own id (d ∷ ds) = elim (Bool-cases (d.depends_on_task_id == id)) [
  | inl same ↦ rw same ((eq_iff d.depends_on_task_id id).0 same, rows-own id ds)
  | inr other ↦ rw other (rows-own id ds)
]

any-own :
    (stage : Stage) (p : PersistedTask) (id : String) (s : SchedulerState)
    (ds : List TaskDependencyRecord)
    → get_task id s ≡ some p
    → in_stage stage (some p) ≡ false
    → All (λ d. d.depends_on_task_id ≡ id) ds
    → any (λ d. in_stage stage (get_task d.depends_on_task_id s)) ds ≡ false
any-own stage p id s [] found other own = refl
any-own stage p id s (d ∷ ds) found other own =
    let here = ap (λ k. in_stage stage (get_task k s)) own.0 ∙ ap (in_stage stage) found ∙ other in
    ground (arith, here, any-own stage p id s ds found other own.1)

-- `hasStageDependency` only ever looks at the task that it is asked about.
has_stage_dependency-own :
    (stage : Stage) (p : PersistedTask) (s : SchedulerState)
    → get_task p.task_id s ≡ some p
    → in_stage stage (some p) ≡ false
    → has_stage_dependency p stage s ≡ false
unfolding has_stage_dependency
has_stage_dependency-own stage p s found other =
    any-own stage p p.task_id s (list_dependents p.task_id s) found other (
      order_by-All _ (λ a b. earlier a.created_at b.created_at) _
        (rows-own p.task_id s.dependencies))

set_task_status-ready_queue :
    (now id : String) (status : TaskStatus) (s : SchedulerState)
    → (set_task_status now id status s).ready_queue ≡ s.ready_queue
set_task_status-ready_queue now id status s = elim (Option-cases (get s.tasks id)) [
  | inl gone ↦ ap (λ u. u.ready_queue) (set_missing now id status s gone)
  | inr (t, found) ↦ ap (λ u. u.ready_queue) (set_found now id status s t found)
]

module _ (config : SchedulerConfig) (run : RunRecord) (now arbiter_id : String) (p : PersistedTask)
    (group : String) (members : List PersistedTask) (s : SchedulerState)
    (found : get_task p.task_id s ≡ some p) (other : in_stage arbitration (some p) ≡ false)
    (dispute : find_group_dispute (dependency_tasks (list_dependencies p.task_id s) s)
      ≡ some (group, members)) where
  arbitration-starts :
      maybe_start_arbitration config run now arbiter_id p
        (dependency_tasks (list_dependencies p.task_id s) s)
        s
      ≡ (start_arbitration config run now arbiter_id p group members s, true)
  unfolding maybe_start_arbitration
  arbitration-starts =
      ap (arbitrate config run now arbiter_id p s) dispute
      ∙ rw (has_stage_dependency-own arbitration p s found other) refl

  resolve_by-starts :
      (e : Evaluation)
      → is_blocking e ≡ false
      → resolve_by config run now arbiter_id p (list_dependencies p.task_id s) s e
        ≡ start_arbitration config run now arbiter_id p group members s
  resolve_by-starts (blocking dependency) clear = ground (arith, clear)
  resolve_by-starts satisfied clear =
      ap (unless_arbitrated config run now arbiter_id p true) arbitration-starts
  resolve_by-starts unsatisfied clear =
      ap (unless_arbitrated config run now arbiter_id p false) arbitration-starts

  found-starts :
      is_waiting p.status ≡ true
      → is_blocking (evaluate_dependencies (list_dependencies p.task_id s) s) ≡ false
      → resolve_found config run now arbiter_id s (some p)
        ≡ start_arbitration config run now arbiter_id p group members s
  found-starts waits clear =
      rw waits (resolve_by-starts (evaluate_dependencies (list_dependencies p.task_id s) s) clear)

  -- The state in which `startArbitration` sets the status of the parent
  abbrev with_arbiter : SchedulerState
  with_arbiter =
      let created =
        create_stage_task config run now arbiter_id p arbitration "arbiter"
          ("Resolve disagreement for " <> first_role members <> " outputs")
          (some (join " | " (map outcome_summary members)))
          (("parallel_group", str group)
            ∷ ("canonical_role", str "arbiter")
            ∷ ("arbitration_role", str (first_role members))
            ∷ ("arbitration_children", arr (str_items (map (λ task. task.task_id) members)))
            ∷ [])
          s in
      record created { ready_queue = add created.ready_queue arbiter_id }

  starts-queue :
      has (start_arbitration config run now arbiter_id p group members s).ready_queue arbiter_id
      ≡ true
  unfolding start_arbitration create_stage_task create_task
  starts-queue =
      ap (λ q. has q arbiter_id)
        (set_task_status-ready_queue now p.task_id TaskStatus.waiting_on_dependency with_arbiter)
      ∙ has-add s.ready_queue arbiter_id arbiter_id
      ∙ ground (arith, eq_refl arbiter_id)

  starts-row :
      (table : Tasks s)
      → arbiter_id ≢ p.task_id
      → get_task p.task_id (start_arbitration config run now arbiter_id p group members s)
        ≡ some (with_status now TaskStatus.waiting_on_dependency p)
  unfolding start_arbitration create_stage_task create_task
  starts-row table fresh =
      set_task_status-get now p.task_id with_arbiter (put-IsTable (λ t. t.task_id) s.tasks _ table)
        TaskStatus.waiting_on_dependency p.task_id
      ∙ rw (eq_refl p.task_id) (
          ap (map_option (with_status now TaskStatus.waiting_on_dependency)) {y = some p}
            (get-put s.tasks arbiter_id p.task_id _ ∙ rw apart found))
    where
      apart : (arbiter_id == p.task_id) ≡ false
      apart = ground (arith, fresh, eq_iff arbiter_id p.task_id)

-- With the task of an arbitration completed its parent waits for dependencies of which none has
-- failed, and the recorded outcomes of a group of reviewers or verifiers still differ. The parent is
-- then not completed: the result of the arbitration queues another arbitration, and the parent waits
-- on.
pub handle_arbitration_result-repeats :
    (config : SchedulerConfig) (run : RunRecord) (now : String) (ids : FreshIds)
    (task parent p : PersistedTask) (attempt_id agent_name group : String)
    (members : List PersistedTask) (result : WorkerResult) (d : TaskScheduler) (s : SchedulerState)
    → s ≡ arbitration_outcome config run now ids task parent result d.state
    → Tasks s
    → parent_of task d.state ≡ some parent
    → parent_of task s ≡ some p
    → is_waiting p.status ≡ true
    → in_stage arbitration (some p) ≡ false
    → ids.arbiter_id ≢ p.task_id
    → is_blocking (evaluate_dependencies (list_dependencies p.task_id s) s) ≡ false
    → find_group_dispute (dependency_tasks (list_dependencies p.task_id s) s)
      ≡ some (group, members)
    → (has
          (handle_arbitration_result config run now ids task attempt_id agent_name result
            d).state.ready_queue
          ids.arbiter_id
        ≡ true)
      × ((after : PersistedTask) × (get_task p.task_id
              (handle_arbitration_result config run now ids task attempt_id agent_name result
                d).state
            ≡ some after)
          × (after.status ≡ TaskStatus.waiting_on_dependency))
unfolding handle_arbitration_result record_outcome resolve_parent_if_ready
handle_arbitration_result-repeats config run now ids task parent p attempt_id agent_name group
      members result d s settled table parents named waits other fresh clear dispute =
    (
      ap (λ u. has u.ready_queue ids.arbiter_id) outcome
          ∙ starts-queue config run now ids.arbiter_id p group members s found other dispute,
      (
        with_status now TaskStatus.waiting_on_dependency p,
        ap (get_task p.task_id) outcome
            ∙ starts-row config run now ids.arbiter_id p group members s found other dispute table
                fresh,
        refl,
      ),
    )
  where
    found : get_task p.task_id s ≡ some p
    found =
        let (id, up, there) = parent-cases s (non_empty task.parent_task_id) named in
        ap (λ k. get_task k s) (get-key (λ t. t.task_id) s.tasks id p table there) ∙ there

    resolved :
        resolve_parent_if_ready config run now ids.arbiter_id task s
        ≡ start_arbitration config run now ids.arbiter_id p group members s
    resolved =
        let (id, up, there) = parent-cases s (non_empty task.parent_task_id) named in
        ap (resolve_named config run now ids.arbiter_id s) up
        ∙ ap (resolve_found config run now ids.arbiter_id s) there
        ∙ found-starts config run now ids.arbiter_id p group members s found other dispute waits
            clear

    outcome :
        (arbitration_result config run now ids task attempt_id agent_name result d
          (parent_of task d.state)).state
        ≡ snapshot (start_arbitration config run now ids.arbiter_id p group members s)
    outcome =
        ap
          (λ o. (arbitration_result config run now ids task attempt_id agent_name result d o).state)
          parents
        ∙ ap (resolve_and_snapshot config run now ids task) (sym settled)
        ∙ ap snapshot resolved
