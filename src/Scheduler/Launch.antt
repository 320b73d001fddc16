-- ===== src/Scheduler/Launch.antt =====
-- When `canRun` lets a task run (apps/orchestrator/src/scheduler/TaskScheduler.ts).
use droid_swarm.Prelude.{
  ℕ, ◌<◌, String, Bool, true, false, not, ◌||◌, leb, if◌then◌else◌, Option, none, some, List, [],
  ◌∷◌, All, ◌≡◌, ◌↔◌, refl, sym, ap, ◌∙◌, ◌⊎◌, inl, inr, arith, Bool-cases, Option-cases,
}
use droid_swarm.Runs.Records.{TaskStatus, PersistedTask}
use droid_swarm.Scheduler.State.{
  TaskDependencyRecord, SchedulerConfig, Load, SchedulerState, get_task, set_task_status,
  list_dependencies, get_run_budget_consumed,
}
use droid_swarm.Scheduler.Gate.{
  dependency_success, runnable, is_queued, is_planning, is_waiting, busy_or_cancelled,
  get_task_depth, Evaluation, satisfied, unsatisfied, blocking, judge, act_on,
  evaluate_dependencies, enforce_budget_limit, code_limit_reached, agent_limit_reached,
  check_dependencies, after_budget, can_run,
}

-- The task that is depended on is there and is completed or verified.
abbrev pub IsDone : SchedulerState → TaskDependencyRecord → Type 0
IsDone s d =
    (c : PersistedTask) × (get_task d.depends_on_task_id s ≡ some c)
    × (dependency_success c.status ≡ true)

evaluate-done :
    (ds : List TaskDependencyRecord) (s : SchedulerState)
    → All (IsDone s) ds
    → evaluate_dependencies ds s ≡ satisfied
unfolding evaluate_dependencies
evaluate-done [] s h = refl
evaluate-done (d ∷ ds) s h =
    let (c, found, done) = h.0 in rw found (rw done (evaluate-done ds s h.1))

judge-satisfied :
    (o : Option PersistedTask) (rest : Evaluation)
    → judge o rest ≡ satisfied
    → ((c : PersistedTask) × (o ≡ some c) × (dependency_success c.status ≡ true))
      × (rest ≡ satisfied)
judge-satisfied none rest h = cc h
judge-satisfied (some c) rest h = elim (Bool-cases (dependency_success c.status)) [
  | inl done ↦ ((c, refl, done), ground (arith, h, done))
  | inr open_yet ↦ ground (arith, h, open_yet)
]

satisfied-IsDone :
    (ds : List TaskDependencyRecord) (s : SchedulerState)
    → evaluate_dependencies ds s ≡ satisfied
    → All (IsDone s) ds
unfolding evaluate_dependencies
satisfied-IsDone [] s h = tt
satisfied-IsDone (d ∷ ds) s h =
    let one = judge-satisfied (get_task d.depends_on_task_id s) (evaluate_dependencies ds s) h in
    (one.0, satisfied-IsDone ds s one.1)

act_on-yes :
    (now : String) (task : PersistedTask) (s : SchedulerState) (e : Evaluation)
    → (act_on now task s e).1 ≡ true
    → e ≡ satisfied
act_on-yes now task s satisfied h = refl
act_on-yes now task s unsatisfied h = ground (arith, h)
act_on-yes now task s (blocking d) h = ground (arith, h)

-- The task has no dependencies and does not wait for any, or all of them are done.
abbrev pub DependenciesDone : PersistedTask → SchedulerState → List TaskDependencyRecord → Type 0
DependenciesDone task s [] = is_waiting task.status ≡ false
DependenciesDone task s (d ∷ ds) = All (IsDone s) (d ∷ ds)

runnable-cases :
    (t : TaskStatus) → runnable t ≡ true → (is_queued t || is_planning t) ≡ not (is_waiting t)
runnable-cases TaskStatus.queued h = refl
runnable-cases TaskStatus.planning h = refl
runnable-cases TaskStatus.waiting_on_dependency h = refl
runnable-cases TaskStatus.running h = ground (arith, h)
runnable-cases TaskStatus.waiting_on_human h = ground (arith, h)
runnable-cases TaskStatus.in_review h = ground (arith, h)
runnable-cases TaskStatus.verified h = ground (arith, h)
runnable-cases TaskStatus.completed h = ground (arith, h)
runnable-cases TaskStatus.failed h = ground (arith, h)
runnable-cases TaskStatus.cancelled h = ground (arith, h)

check-done :
    (now : String) (task : PersistedTask) (s : SchedulerState) (ds : List TaskDependencyRecord)
    → runnable task.status ≡ true
    → ((check_dependencies now task s ds).1 ≡ true) ↔ DependenciesDone task s ds
check-done now task s [] ok = (
  λ h. ground (arith, h, runnable-cases task.status ok),
  λ h. ground (arith, h, runnable-cases task.status ok),
)
check-done now task s (d ∷ ds) ok = (
  λ h. satisfied-IsDone (d ∷ ds) s (act_on-yes now task s (evaluate_dependencies (d ∷ ds) s) h),
  λ h. rw (evaluate-done (d ∷ ds) s h) refl,
)

-- The run has no budget, or has not used it up.
abbrev pub WithinBudget : SchedulerConfig → SchedulerState → Type 0
WithinBudget config s =
    (config.budget_max_consumed ≡ none)
    ⊎ ((limit : ℕ) × (config.budget_max_consumed ≡ some limit)
        × (s.budget_limit_reached ≡ false)
        × (get_run_budget_consumed s < limit))

pub within-enforce :
    (config : SchedulerConfig) (now : String) (task : PersistedTask) (s : SchedulerState)
    → WithinBudget config s
    → enforce_budget_limit config now task s ≡ (s, true)
unfolding enforce_budget_limit
within-enforce config now task s (inl free) = rw (free, enforce_budget_limit) refl
within-enforce config now task s (inr (limit, some_limit, fresh, left)) =
    rw (some_limit, enforce_budget_limit) (rw fresh (ground (arith, left)))

enforce-within :
    (config : SchedulerConfig) (now : String) (task : PersistedTask) (s : SchedulerState)
    → (enforce_budget_limit config now task s).1 ≡ true
    → WithinBudget config s
unfolding enforce_budget_limit
enforce-within config now task s h = elim (Option-cases config.budget_max_consumed) [
  | inl free ↦ inl free
  | inr (limit, some_limit) ↦
      inr (limit, some_limit, ground (arith, h, some_limit), ground (arith, h, some_limit))
]

-- The task has a status to start from, the run is within its budget, no limit on agents is
-- reached, the task is not too deep, and it waits for nothing.
abbrev pub IsReady : SchedulerConfig → Load → ℕ → PersistedTask → SchedulerState → Type 0
IsReady config load fuel task s =
    (runnable task.status ≡ true)
    × WithinBudget config s
    × ((config.max_concurrent_code_agents ≡ 0)
        ⊎ (load.code_count < config.max_concurrent_code_agents))
    × (load.global_active < config.max_concurrent_agents)
    × ((depth : ℕ) × (get_task_depth fuel task.task_id s ≡ some depth)
        × (depth < config.scheduler_max_task_depth))
    × DependenciesDone task s (list_dependencies task.task_id s)

runnable-free : (t : TaskStatus) → runnable t ≡ true → busy_or_cancelled t ≡ false
runnable-free TaskStatus.queued h = refl
runnable-free TaskStatus.planning h = refl
runnable-free TaskStatus.waiting_on_dependency h = refl
runnable-free TaskStatus.running h = sym h
runnable-free TaskStatus.waiting_on_human h = refl
runnable-free TaskStatus.in_review h = refl
runnable-free TaskStatus.verified h = refl
runnable-free TaskStatus.completed h = refl
runnable-free TaskStatus.failed h = refl
runnable-free TaskStatus.cancelled h = sym h

-- A guard that answers `false` was not taken when the answer is `true`.
guard-passed :
    (b : Bool) (x t : SchedulerState) (rest : Option (SchedulerState × Bool))
    → (if b then some (x, false) else rest) ≡ some (t, true)
    → (b ≡ false) × (rest ≡ some (t, true))
guard-passed true x t rest h = ground (arith, h)
guard-passed false x t rest h = (refl, h)

module _ (config : SchedulerConfig) (load : Load) (fuel : ℕ) (now : String) (task : PersistedTask)
    (s : SchedulerState) where
  budget-runs :
      IsReady config load fuel task s
      → after_budget config load fuel now task s true
        ≡ some (check_dependencies now task s (list_dependencies task.task_id s))
  unfolding after_budget
  budget-runs (ok, within, code, agents, (depth, deep, shallow), done) =
      rw (free_code, free_agents, deep, after_budget) (rw (ok, shallow_test) refl)
    where
      free_code : code_limit_reached config load ≡ false
      free_code = ground (arith, code)

      free_agents : agent_limit_reached config load ≡ false
      free_agents = ground (arith, agents)

      shallow_test : leb config.scheduler_max_task_depth depth ≡ false
      shallow_test = ground (arith, shallow)

  ready-runs :
      IsReady config load fuel task s
      → can_run config load fuel now task s
        ≡ some (check_dependencies now task s (list_dependencies task.task_id s))
  unfolding can_run
  ready-runs ready = rw (runnable-free task.status ready.0) (
      ap (λ b. after_budget config load fuel now task b.0 b.1)
        (within-enforce config now task s ready.1)
      ∙ budget-runs ready)

  budget-ready :
      (within : Bool) (t : SchedulerState)
      → after_budget config load fuel now task s within ≡ some (t, true)
      → (within ≡ true)
        × (code_limit_reached config load ≡ false)
        × (agent_limit_reached config load ≡ false)
        × ((depth : ℕ) × (get_task_depth fuel task.task_id s ≡ some depth)
            × (leb config.scheduler_max_task_depth depth ≡ false))
        × (runnable task.status ≡ true)
        × ((check_dependencies now task s (list_dependencies task.task_id s)).1 ≡ true)
  unfolding after_budget
  budget-ready within t h =
      let open_budget = guard-passed (not within) _ t _ h in
      let open_code = guard-passed (code_limit_reached config load) _ t _ open_budget.1 in
      let open_agents = guard-passed (agent_limit_reached config load) _ t _ open_code.1 in
      let (depth, deep, passed) = deep_enough (get_task_depth fuel task.task_id s) open_agents.1 in
      let shallow = guard-passed (leb config.scheduler_max_task_depth depth) _ t _ passed in
      let startable = guard-passed (not (runnable task.status)) _ t _ shallow.1 in
      (
        ground (arith, open_budget.0),
        open_code.0,
        open_agents.0,
        (depth, deep, shallow.0),
        ground (arith, startable.0),
        ground (arith, startable.1),
      )
    where
      deep_enough :
          (o : Option ℕ)
          → (elim o as (λ x. Option (SchedulerState × Bool)) [
            | none ↦ none
            | some depth ↦
                if leb config.scheduler_max_task_depth depth
                then some (set_task_status now task.task_id TaskStatus.waiting_on_human s, false)
                else if not (runnable task.status)
                then some (s, false)
                else some (check_dependencies now task s (list_dependencies task.task_id s))
          ])
            ≡ some (t, true)
          → (depth : ℕ) × (o ≡ some depth)
            × ((if leb config.scheduler_max_task_depth depth
                  then some (set_task_status now task.task_id TaskStatus.waiting_on_human s, false)
                  else if not (runnable task.status)
                  then some (s, false)
                  else some (check_dependencies now task s (list_dependencies task.task_id s)))
                ≡ some (t, true))
      deep_enough none h = ground (arith, h)
      deep_enough (some depth) h = (depth, refl, h)

  passed-IsReady :
      (t : SchedulerState)
      → can_run config load fuel now task s ≡ some (t, true)
      → IsReady config load fuel task s
  unfolding can_run after_budget
  passed-IsReady t h =
      let free = guard-passed (busy_or_cancelled task.status) _ t _ h in
      let budget = enforce_budget_limit config now task s in
      let within = enforce-within config now task s (passed-budget budget.0 budget.1 free.1) in
      let (yes_budget, code, agents, (depth, deep, shallow), ok, done) = budget-ready true t (
        sym (
          ap (λ b. after_budget config load fuel now task b.0 b.1)
            (within-enforce config now task s within))
        ∙ free.1) in
      (
        ok,
        within,
        ground (arith, code),
        ground (arith, agents),
        (depth, deep, ground (arith, shallow)),
        (check-done now task s (list_dependencies task.task_id s) ok).0 done,
      )
    where
      passed-budget :
          (u : SchedulerState) (b : Bool)
          → after_budget config load fuel now task u b ≡ some (t, true)
          → b ≡ true
      passed-budget u true h = refl
      passed-budget u false h = ground (arith, h)

  -- A task is let run exactly when it is ready: its status is queued, planning or waiting for
  -- dependencies; the run has no budget limit, or did not reach it before and is below it; the limit
  -- on code agents is 0 or leaves room, and the limit on all agents leaves room; its depth is found
  -- with the fuel and is below the limit; every task that it depends on is completed or verified;
  -- and it depends on at least one task if it waits for dependencies.
  pub can_run-IsReady :
      ((t : SchedulerState) × (can_run config load fuel now task s ≡ some (t, true)))
      ↔ IsReady config load fuel task s
  can_run-IsReady = (
    λ h. passed-IsReady h.0 h.1,
    λ ready.
        let checked = check_dependencies now task s (list_dependencies task.task_id s) in
        (
          checked.0,
          ready-runs ready
              ∙ ap (λ b. some (checked.0, b))
                  ((check-done now task s (list_dependencies task.task_id s) ready.0).1 ready.5),
        ),
  )
