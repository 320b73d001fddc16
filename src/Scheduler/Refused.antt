-- ===== src/Scheduler/Refused.antt =====
-- `canRun` of a task that depends on a running task
-- (apps/orchestrator/src/scheduler/TaskScheduler.ts).
use mathlib.Core.List.{Memᴰ}
use mathlib.Core.List.Memᴰ
use droid_swarm.Prelude.{
  ℕ, String, true, ◌==◌, some, List, [], ◌∷◌, ◌≡◌, ◌≢◌, sym, ap, ◌∙◌, arith, eq_iff,
}
use droid_swarm.Prelude.Rows.{order_by-Mem, filter-Mem, All-Mem}
use droid_swarm.Runs.Records.{TaskStatus, PersistedTask}
use droid_swarm.Runs.Store.{earlier}
use droid_swarm.Scheduler.State.{
  TaskDependencyRecord, SchedulerConfig, Load, SchedulerState, get_task, list_dependencies,
}
use droid_swarm.Scheduler.Gate.{dependency_success, can_run}
use droid_swarm.Scheduler.Launch.{IsDone, DependenciesDone, can_run-IsReady}

IsDone-Mem :
    (task : PersistedTask) (s : SchedulerState) (ds : List TaskDependencyRecord)
    (d : TaskDependencyRecord)
    → DependenciesDone task s ds
    → Memᴰ d ds
    → IsDone s d
IsDone-Mem task s [] d done mem = elim (Memᴰ.not-nil mem) [ ]
IsDone-Mem task s (e ∷ ds) d done mem = All-Mem (IsDone s) d (e ∷ ds) done mem

-- A task is refused as long as a task that it depends on is running.
pub running-refused :
    (config : SchedulerConfig) (load : Load) (fuel : ℕ) (now : String) (task row : PersistedTask)
    (s t : SchedulerState) (d : TaskDependencyRecord)
    → Memᴰ d s.dependencies
    → d.task_id ≡ task.task_id
    → get_task d.depends_on_task_id s ≡ some row
    → row.status ≡ TaskStatus.running
    → can_run config load fuel now task s ≢ some (t, true)
running-refused config load fuel now task row s t d mem from there busy h =
    let (c, found, done) =
      IsDone-Mem task s (list_dependencies task.task_id s) d
        ((can_run-IsReady config load fuel now task s).0 (t, h)).5
        (order_by-Mem (λ a b. earlier a.created_at b.created_at) d _
          (filter-Mem (λ e. e.task_id == task.task_id) d s.dependencies
            (ground (arith, from, eq_iff d.task_id task.task_id)) mem)) in
    ground (arith, done, ap dependency_success (same_status c found))
  where
    same_status :
        (c : PersistedTask)
        → get_task d.depends_on_task_id s ≡ some c
        → c.status ≡ TaskStatus.running
    same_status c found = ap (λ x. x.status) (same c found) ∙ busy
      where
        same : (c : PersistedTask) → get_task d.depends_on_task_id s ≡ some c → c ≡ row
        same c found = cc (sym found ∙ there)
