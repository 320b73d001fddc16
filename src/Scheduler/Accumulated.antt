-- ===== src/Scheduler/Accumulated.antt =====
-- What the limits of a policy on tokens and tool calls see of earlier results
-- (apps/orchestrator/src/scheduler/TaskScheduler.ts).
use droid_swarm.Prelude.{
  ℕ, String, Bool, true, false, ◌==◌, Option, none, some, List, [], ◌∷◌, All, get, put, get-put,
  get-remove, get_or, ◌≡◌, refl, sym, ap, subst, ◌∙◌, inl, inr, Bool-cases, eq_refl,
}
use droid_swarm.Prelude.Rows.{map_option, get-key, IsTable, All-implies}
use droid_swarm.Prelude.Sets.{has}
use droid_swarm.Audit.Json.{bool, str}
use droid_swarm.Runs.Records.{Metadata, PersistedTask}
use droid_swarm.Runs.Lifecycle.{set_key}
use droid_swarm.Scheduler.Policy.{TaskPolicy}
use droid_swarm.Scheduler.State.{SchedulerState, get_task, update_task_metadata}
use droid_swarm.Scheduler.Gate.{clear_retry}
use droid_swarm.Scheduler.Tables.{
  Tasks, with_metadata, update_task_metadata-Tasks, update_task_metadata-get,
}
use droid_swarm.Scheduler.Results.{WorkerResult}
use droid_swarm.Scheduler.Usage.{
  Metrics, members_of, existing_usage, with_usage, usage_violation, constrained,
  apply_usage_constraints, with_outcome, outcome_recorded, result_of, record_agent_result,
}

-- A result that reaches the scheduler, with the time, what it reports and the age of its attempt
pub record Arrival : Type 0 where
  pub now : String
  pub result : WorkerResult
  pub metrics : Metrics
  pub elapsed : Option ℕ

-- Results of one task, one after the other, as long as they are accepted
abbrev pub next_results :
    (SchedulerState → SchedulerState × Bool) → SchedulerState × Bool → SchedulerState × Bool
next_results later (s, false) = (s, false)
next_results later (s, true) = later s

unfoldable pub record_all :
    TaskPolicy → String → List Arrival → SchedulerState → SchedulerState × Bool
record_all policy task_id [] s = (s, true)
record_all policy task_id (a ∷ arrivals) s =
    next_results (record_all policy task_id arrivals)
      (record_agent_result policy a.now task_id a.result a.metrics a.elapsed s)

set_key-get :
    (key : String) (v : Option String) (m : Metadata) (k : String)
    → (key == k) ≡ false
    → get (set_key key v m) k ≡ get m k
set_key-get key none m k other = get-remove m key k ∙ rw other refl
set_key-get key (some text) m k other = get-put m key k (str text) ∙ rw other refl

with_outcome-usage :
    (task : PersistedTask) (result : WorkerResult)
    → get (with_outcome task result) "usage" ≡ get (get_or task.metadata []) "usage"
with_outcome-usage task result =
    set_key-get "last_outcome_reason" result.reason_code _ "usage" refl
    ∙ get-put (put (get_or task.metadata []) "last_outcome_success" (bool result.success))
        "last_outcome_summary" "usage" (str result.summary)
    ∙ get-put (get_or task.metadata []) "last_outcome_success" "usage" (bool result.success)

clear_retry-tasks : (id : String) (s : SchedulerState) → (clear_retry id s).tasks ≡ s.tasks
unfolding clear_retry
clear_retry-tasks id s = elim (Bool-cases (has s.retry_timers id)) [
  | inl there ↦ rw there refl
  | inr gone ↦ rw gone refl
]

module _ (policy : TaskPolicy) (id : String) (a : Arrival) (s : SchedulerState)
    (task : PersistedTask) (table : Tasks s) (found : get_task id s ≡ some task)
    (within : usage_violation policy (existing_usage task) a.metrics a.elapsed ≡ none) where
  named : task.task_id ≡ id
  named = get-key (λ t. t.task_id) s.tasks id task table found

  without_retry : SchedulerState
  without_retry = clear_retry task.task_id s

  without_retry-Tasks : Tasks without_retry
  unfolding without_retry
  without_retry-Tasks =
      subst (IsTable (λ t. t.task_id)) (sym (clear_retry-tasks task.task_id s)) table

  used : SchedulerState
  used = update_task_metadata a.now task.task_id (with_usage task a.metrics) without_retry

  used-Tasks : Tasks used
  unfolding used
  used-Tasks =
      update_task_metadata-Tasks a.now task.task_id without_retry without_retry-Tasks
        (with_usage task a.metrics)

  -- The state after an accepted result
  recorded : SchedulerState
  recorded = (outcome_recorded a.now task a.result (used, true)).0

  record-accepted :
      record_agent_result policy a.now id a.result a.metrics a.elapsed s ≡ (recorded, true)
  unfolding record_agent_result apply_usage_constraints recorded used without_retry
  record-accepted =
      ap (result_of policy a.now a.result a.metrics a.elapsed s) found
      ∙ ap (λ o. outcome_recorded a.now task a.result (constrained a.now task used o)) within

  recorded-Tasks : Tasks recorded
  unfolding recorded
  recorded-Tasks =
      update_task_metadata-Tasks a.now task.task_id used used-Tasks (with_outcome task a.result)

  used-row :
      get used.tasks task.task_id ≡ some (with_metadata a.now (with_usage task a.metrics) task)
  unfolding used without_retry
  used-row =
      update_task_metadata-get a.now task.task_id without_retry without_retry-Tasks
        (with_usage task a.metrics) task.task_id
      ∙ rw (eq_refl task.task_id) (
          ap (map_option (with_metadata a.now (with_usage task a.metrics))) {y = some task} (
            ap (λ m. get m task.task_id) (clear_retry-tasks task.task_id s)
            ∙ ap (λ k. get_task k s) named
            ∙ found))

  recorded-row :
      (after : PersistedTask) × (get_task id recorded ≡ some after)
      × (existing_usage after ≡ existing_usage task)
  unfolding recorded
  recorded-row = (
    with_metadata a.now (with_outcome task a.result)
        (with_metadata a.now (with_usage task a.metrics) task),
    ap (λ k. get_task k recorded) (sym named)
        ∙ update_task_metadata-get a.now task.task_id used used-Tasks (with_outcome task a.result)
            task.task_id
        ∙ rw (eq_refl task.task_id) (
            ap (map_option (with_metadata a.now (with_outcome task a.result)))
              {y = some (with_metadata a.now (with_usage task a.metrics) task)} used-row),
    ap members_of (with_outcome-usage task a.result),
  )

-- Results of a task are all accepted when each of them alone, with the usage that the task has at
-- first, is within the policy: however many there are, what one has used is forgotten at the next.
pub record_all-accepted :
    (policy : TaskPolicy) (id : String) (arrivals : List Arrival) (s : SchedulerState)
    (task : PersistedTask)
    → Tasks s
    → get_task id s ≡ some task
    → All (λ a. usage_violation policy (existing_usage task) a.metrics a.elapsed ≡ none) arrivals
    → ((record_all policy id arrivals s).1 ≡ true)
      × ((after : PersistedTask) × (get_task id (record_all policy id arrivals s).0 ≡ some after)
          × (existing_usage after ≡ existing_usage task))
unfolding record_all
record_all-accepted policy id [] s task table found within = (refl, (task, found, refl))
record_all-accepted policy id (a ∷ arrivals) s task table found within =
    let (after, there, same) = recorded-row policy id a s task table found within.0 in
    let rest =
      record_all-accepted policy id arrivals (recorded policy id a s task table found within.0)
        after (recorded-Tasks policy id a s task table found within.0) there
        (All-implies (λ b. usage_violation policy (existing_usage task) b.metrics b.elapsed ≡ none)
          (λ b ok. ap (λ u. usage_violation policy u b.metrics b.elapsed) same ∙ ok) arrivals
          within.1) in
    let step =
      ap (next_results (record_all policy id arrivals))
        (record-accepted policy id a s task table found within.0) in
    (
      ap (λ r. r.1) step ∙ rest.0,
      (rest.1.0, ap (λ r. get_task id r.0) step ∙ rest.1.1, rest.1.2 ∙ same),
    )
