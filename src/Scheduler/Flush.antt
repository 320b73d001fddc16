-- ===== src/Scheduler/Flush.antt =====
-- What leaves the tasks and their dependencies alone: digests, checkpoints and updates of one row
-- (apps/orchestrator/src/scheduler/TaskScheduler.ts, apps/orchestrator/src/persistence/service.ts).
use droid_swarm.Prelude.{
  String, ◌==◌, Option, none, some, get, ◌≡◌, refl, ap, inl, inr, Bool-cases, Option-cases,
}
use droid_swarm.Runs.Records.{TaskStatus, Metadata, PersistedTask}
use droid_swarm.Scheduler.State.{SchedulerState, get_task, set_task_status, update_task_metadata}
use droid_swarm.Scheduler.Tables.{set_found, set_missing}
use droid_swarm.Scheduler.Results.{
  PendingCheckpoint, TaskScheduler, digest_if, persist_checkpoint, flush_pending,
}

-- Two states with the same tasks and dependencies
abbrev pub SameTables : SchedulerState → SchedulerState → Type 0
SameTables s t = (s.tasks ≡ t.tasks) × (s.dependencies ≡ t.dependencies)

digest_if-SameTables :
    (o : Option PersistedTask) (summary : String) (s : SchedulerState)
    → SameTables (digest_if o summary s) s
digest_if-SameTables none summary s = (refl, refl)
digest_if-SameTables (some t) summary s = elim (Bool-cases (summary == "")) [
  | inl blank ↦ rw blank (refl, refl)
  | inr text ↦ rw text (refl, refl)
]

pub flush_pending-SameTables :
    (id : String) (d : TaskScheduler) (o : Option PendingCheckpoint)
    → SameTables (flush_pending id d o).state d.state
unfolding persist_checkpoint
flush_pending-SameTables id d none = (refl, refl)
flush_pending-SameTables id d (some pending) =
    digest_if-SameTables (get_task id d.state) pending.summary d.state

pub set_task_status-dependencies :
    (now id : String) (status : TaskStatus) (s : SchedulerState)
    → (set_task_status now id status s).dependencies ≡ s.dependencies
set_task_status-dependencies now id status s = elim (Option-cases (get s.tasks id)) [
  | inl gone ↦ ap (λ u. u.dependencies) (set_missing now id status s gone)
  | inr (t, found) ↦ ap (λ u. u.dependencies) (set_found now id status s t found)
]

pub update_task_metadata-dependencies :
    (now id : String) (metadata : Metadata) (s : SchedulerState)
    → (update_task_metadata now id metadata s).dependencies ≡ s.dependencies
unfolding update_task_metadata
update_task_metadata-dependencies now id metadata s = elim (Option-cases (get s.tasks id)) [
  | inl gone ↦ rw (gone, update_task_metadata) refl
  | inr (t, found) ↦ rw (found, update_task_metadata) refl
]
