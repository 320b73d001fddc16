-- ===== src/Scheduler/Stages.antt =====
-- Tasks that the scheduler makes: `createTask` of apps/orchestrator/src/persistence/service.ts, and
-- the stage tasks of apps/orchestrator/src/scheduler/TaskScheduler.ts.
use droid_swarm.Prelude.{
  ◌+◌, String, Bool, false, ◌==◌, if◌then◌else◌, ◌<>◌, Option, none, some, [], ◌∷◌, any, get, put,
  get_or,
}
use droid_swarm.Prelude.Sets.{add}
use droid_swarm.Audit.Json.{Json, str}
use droid_swarm.Runs.Records.{TaskStatus, Priority, Metadata, RunRecord, PersistedTask}
use droid_swarm.Runs.Lifecycle.{set_key}
use droid_swarm.Scheduler.Policy.{or_default}
use droid_swarm.Scheduler.State.{
  SchedulerConfig, SchedulerState, get_task, set_task_status, list_dependents, add_dependency,
  build_and_persist_digest,
}

pub data Stage : Type 0 where
  verification review artifact_verification arbitration checkpoint_compression : Stage

abbrev pub stage_text : Stage → String
stage_text verification = "verification"
stage_text review = "review"
stage_text artifact_verification = "artifact_verification"
stage_text arbitration = "arbitration"
stage_text checkpoint_compression = "checkpoint_compression"

-- `typeof value === 'string' ? value : undefined`
abbrev pub as_text : Option Json → Option String
as_text (some (str s)) = some s
as_text _ = none

-- `createTask`
unfoldable pub create_task :
    RunRecord
    → String
    → String
    → String
    → Priority
    → Option String
    → TaskStatus
    → Metadata
    → SchedulerState
    → SchedulerState
create_task run now task_id name priority parent_task_id status metadata s = record s {
  tasks = put s.tasks task_id (record {
    task_id = task_id;
    run_id = run.run_id;
    project_id = some (get_or (as_text (get metadata "project_id")) run.project_id);
    repo_id = or_default (as_text (get metadata "repo_id")) run.repo_id;
    root_path = or_default (as_text (get metadata "root_path")) run.root_path;
    branch = or_default (as_text (get metadata "branch")) run.branch;
    workspace_id = or_default (as_text (get metadata "workspace_id")) run.workspace_id;
    parent_task_id = parent_task_id;
    name = name;
    status = status;
    priority = priority;
    created_at = now;
    updated_at = now;
    metadata = some metadata;
  });
}

-- `...extraMetadata`
abbrev pub spread : Metadata → Metadata → Metadata
spread [] m = m
spread (e ∷ extra) m = spread extra (put m e.0 e.1)

unfoldable pub stage_metadata :
    SchedulerConfig → PersistedTask → Stage → String → String → Option String → Metadata → Metadata
stage_metadata config parent stage role description parent_summary extra = spread extra (
    put
      (put
        (put
          (put
            (set_key "parent_summary" parent_summary (
              ("stage", str (stage_text stage))
              ∷ ("agent_role", str role)
              ∷ ("task_type", str (stage_text stage))
              ∷ ("description", str description)
              ∷ []))
            "project_id" (str (get_or parent.project_id config.project_id)))
          "repo_id" (str (get_or parent.repo_id config.repo_id)))
        "root_path" (str (get_or parent.root_path config.project_root)))
      "branch" (str (get_or parent.branch config.default_branch)))

-- `createStageTask`, with the id that `randomUUID` gives
unfoldable pub create_stage_task :
    SchedulerConfig
    → RunRecord
    → String
    → String
    → PersistedTask
    → Stage
    → String
    → String
    → Option String
    → Metadata
    → SchedulerState
    → SchedulerState
create_stage_task config run now task_id parent stage role description parent_summary extra s =
    add_dependency now parent.task_id task_id (
      create_task run now task_id (parent.name <> " → " <> stage_text stage) parent.priority
        (some parent.task_id) TaskStatus.queued
        (stage_metadata config parent stage role description parent_summary extra) s)

-- `task?.metadata?.stage === stage`
abbrev pub in_stage : Stage → Option PersistedTask → Bool
in_stage stage none = false
in_stage stage (some task) = elim (as_text (get (get_or task.metadata []) "stage")) [
  | none ↦ false
  | some text ↦ text == stage_text stage
]

-- `hasStageDependency`
unfoldable pub has_stage_dependency : PersistedTask → Stage → SchedulerState → Bool
has_stage_dependency parent stage s =
    any (λ d. in_stage stage (get_task d.depends_on_task_id s)) (list_dependents parent.task_id s)

unfoldable pub digest_of : String → String → SchedulerState → SchedulerState
digest_of task_id summary s = elim (get_task task_id s) [
  | none ↦ s
  | some refreshed ↦ build_and_persist_digest refreshed.task_id summary s
]

abbrev pub snapshot : SchedulerState → SchedulerState
snapshot s = record s { topology_snapshots = s.topology_snapshots + 1 }

-- A new stage task, put into the ready queue
unfoldable pub queue_stage_task :
    SchedulerConfig
    → RunRecord
    → String
    → String
    → PersistedTask
    → Stage
    → String
    → String
    → Option String
    → SchedulerState
    → SchedulerState
queue_stage_task config run now child_id parent stage role description summary s =
    let created =
      create_stage_task config run now child_id parent stage role description summary [] s in
    record created { ready_queue = add created.ready_queue child_id }

-- `startVerification`, without the callback `onVerificationRequested`
unfoldable pub start_verification :
    SchedulerConfig
    → RunRecord
    → String
    → String
    → PersistedTask
    → Option String
    → SchedulerState
    → SchedulerState
start_verification config run now child_id parent summary s =
    if has_stage_dependency parent verification s
    then s
    else let queued =
        queue_stage_task config run now child_id parent verification "tester"
          "Verification pass for implementation" summary s in
      digest_of parent.task_id (get_or summary "verification requested")
        (snapshot (set_task_status now parent.task_id TaskStatus.in_review queued))

-- `startReview`
unfoldable pub start_review :
    SchedulerConfig
    → RunRecord
    → String
    → String
    → PersistedTask
    → Option String
    → SchedulerState
    → SchedulerState
start_review config run now child_id parent summary s =
    if has_stage_dependency parent review s
    then s
    else let queued =
        queue_stage_task config run now child_id parent review "reviewer" "Human review pass"
          summary s in
      digest_of parent.task_id (get_or summary "review requested")
        (snapshot (set_task_status now parent.task_id TaskStatus.waiting_on_dependency queued))
