-- ===== src/Scheduler/Followups.antt =====
-- The tasks that follow a failed verification and a recorded artifact
-- (apps/orchestrator/src/scheduler/TaskScheduler.ts).
use droid_swarm.Prelude.{
  String, Bool, ◌&&◌, ◌||◌, ◌==◌, if◌then◌else◌, ◌<>◌, Option, none, some, List, [], ◌∷◌, ◌++◌,
}
use droid_swarm.Prelude.Sets.{has, add}
use droid_swarm.Audit.Json.{Items, str, arr, obj, nil, cons, end, member}
use droid_swarm.Runs.Records.{TaskStatus, RunRecord, PersistedTask}
use droid_swarm.Runs.Lifecycle.{set_key}
use droid_swarm.Scheduler.State.{SchedulerConfig, set_task_status}
use droid_swarm.Scheduler.Stages.{artifact_verification, create_task, create_stage_task, snapshot}
use droid_swarm.Scheduler.Results.{ArtifactRecord, TaskScheduler}

-- The references to the logs of a failed verification
abbrev pub log_refs : List ArtifactRecord → Items
log_refs [] = nil
log_refs (a ∷ rest) =
    cons
      (obj (
        member "artifactId" (str a.artifact_id)
          (member "summary" (str a.summary) (member "kind" (str a.kind) end))))
      (log_refs rest)

abbrev pub is_log : String → ArtifactRecord → Bool
is_log task_id a = a.task_id == task_id && a.kind == "verification_log"

-- `queueVerificationFixTask`
unfoldable pub queue_verification_fix_task :
    RunRecord
    → String
    → String
    → PersistedTask
    → String
    → List ArtifactRecord
    → TaskScheduler
    → TaskScheduler
queue_verification_fix_task run now fix_id parent summary artifacts d =
    let created =
      create_task run now fix_id (parent.name <> " → verification fix") parent.priority
        (some parent.task_id) TaskStatus.queued
        (("stage", str "verification_fix")
          ∷ ("task_type", str "verification_fix")
          ∷ ("failure_summary", str summary)
          ∷ ("verification_log_refs", arr (log_refs artifacts))
          ∷ [])
        d.state in
    record d {
      state = snapshot (record created { ready_queue = add created.ready_queue fix_id });
      execution_events =
          d.execution_events
          ++ (("verification_fix_task_created", "Queued verification fix task " <> fix_id) ∷ []);
    }

abbrev pub critic_description : String → Option String → String
critic_description artifact_id none = "Critic review for artifact " <> artifact_id
critic_description artifact_id (some summary) =
    if summary == ""
    then "Critic review for artifact " <> artifact_id
    else "Critic review: " <> summary

-- `queueArtifactVerification`
unfoldable pub queue_artifact_verification :
    SchedulerConfig
    → RunRecord
    → String
    → String
    → PersistedTask
    → String
    → Option String
    → TaskScheduler
    → TaskScheduler
queue_artifact_verification config run now critic_id task artifact_id summary d =
    if artifact_id == "" || has d.artifact_critic_queue artifact_id
    then d
    else let created =
        create_stage_task config run now critic_id task artifact_verification "critic"
          (critic_description artifact_id summary) summary
          (set_key "artifact_summary" summary (("artifact_id", str artifact_id) ∷ [])) d.state in
      record d {
        artifact_critic_queue = add d.artifact_critic_queue artifact_id;
        tasks_awaiting_critic = add d.tasks_awaiting_critic task.task_id;
        state = snapshot (
            set_task_status now task.task_id TaskStatus.waiting_on_dependency
              (record created { ready_queue = add created.ready_queue critic_id }));
      }
