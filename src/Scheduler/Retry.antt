-- ===== src/Scheduler/Retry.antt =====
-- What becomes of a task whose agent failed, and what a reached limit costs
-- (apps/orchestrator/src/scheduler/TaskScheduler.ts).
use droid_swarm.Prelude.{
  ℕ, String, true, some, get, get-put, ◌≡◌, ◌≢◌, refl, ap, ◌∙◌, arith, eq_refl,
}
use droid_swarm.Prelude.Sets.{has, has-add}
use droid_swarm.Runs.Records.{PersistedTask, TaskStatus}
use droid_swarm.Scheduler.State.{SchedulerConfig, Load, SchedulerState, get_task, set_task_status}
use droid_swarm.Scheduler.Gate.{can_run, schedule_retry, retry_due, agent_failed}
use droid_swarm.Scheduler.Tables.{set_found}
use droid_swarm.Scheduler.Launch.{can_run-IsReady}

schedule_retry-tasks : (id : String) (s : SchedulerState) → (schedule_retry id s).tasks ≡ s.tasks
unfolding schedule_retry
schedule_retry-tasks id s = ground arith

-- A task whose agent failed stands in the ready queue once its retry is due, and is then refused
-- whatever the limits, the budget and the load are: it waits for a human.
pub agent_failed-refused :
    (now id : String) (task : PersistedTask) (s : SchedulerState)
    → get_task id s ≡ some task
    → task.task_id ≡ id
    → (has (retry_due id (agent_failed now id s)).ready_queue id ≡ true)
      × ((waiting : PersistedTask) × (get_task id (retry_due id (agent_failed now id s))
            ≡ some waiting)
          × ((config : SchedulerConfig) (load : Load) (fuel : ℕ) (later : String)
                (t : SchedulerState)
              → can_run config load fuel later waiting (retry_due id (agent_failed now id s))
                ≢ some (t, true)))
unfolding retry_due agent_failed
agent_failed-refused now id task s found key = (
  ground (
    arith,
    has-add (schedule_retry id (set_task_status now id TaskStatus.waiting_on_human s)).ready_queue
        id id,
    eq_refl id,
  ),
  (
    record task { status = TaskStatus.waiting_on_human; updated_at = now },
    ap (λ m. get m id)
          (schedule_retry-tasks id (set_task_status now id TaskStatus.waiting_on_human s))
        ∙ written,
    λ config load fuel later t h.
        ground (arith, ((can_run-IsReady config load fuel later _ _).0 (t, h)).0),
  ),
)
  where
    written :
        get (set_task_status now id TaskStatus.waiting_on_human s).tasks id
        ≡ some (record task { status = TaskStatus.waiting_on_human; updated_at = now })
    written =
        rw (set_found now id TaskStatus.waiting_on_human s task found)
          (rw (get-put s.tasks task.task_id id _, key, eq_refl id) refl)
