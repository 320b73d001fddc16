-- ===== src/Scheduler/Handlers.antt =====
-- What the scheduler does about the result of each kind of stage task
-- (apps/orchestrator/src/scheduler/TaskScheduler.ts). A handler is modelled up to the call of
-- `schedule` that ends it; `Gate` says which tasks that call lets run.
use droid_swarm.Prelude.{
  String, Bool, true, false, if◌then◌else◌, Option, none, some, List, [], ◌∷◌, ◌++◌, filter, put,
  get_or, truthy,
}
use droid_swarm.Prelude.Sets.{add, delete}
use droid_swarm.Audit.Json.{str}
use droid_swarm.Runs.Records.{TaskStatus, RunRecord, PersistedTask}
use droid_swarm.Scheduler.State.{
  SchedulerConfig, SchedulerState, get_task, set_task_status, update_task_metadata,
  build_and_persist_digest,
}
use droid_swarm.Scheduler.Gate.{schedule_retry}
use droid_swarm.Scheduler.Stages.{start_review, snapshot}
use droid_swarm.Scheduler.Groups.{metadata_text, non_empty}
use droid_swarm.Scheduler.Resolve.{resolve_parent_if_ready}
use droid_swarm.Scheduler.Results.{
  verification, review, WorkerResult, TaskScheduler, on_state, record_outcome,
  flush_pending_checkpoint,
}
use droid_swarm.Scheduler.Followups.{is_log, queue_verification_fix_task}

-- The ids that `randomUUID` gives: for a task of the next stage, and for an arbitration
pub record FreshIds : Type 0 where
  pub stage_id : String
  pub arbiter_id : String

abbrev pub parent_at : SchedulerState → Option String → Option PersistedTask
parent_at s none = none
parent_at s (some parent_id) = get_task parent_id s

abbrev pub parent_of : PersistedTask → SchedulerState → Option PersistedTask
parent_of task s = parent_at s (non_empty task.parent_task_id)

module _ (config : SchedulerConfig) (run : RunRecord) (now : String) (ids : FreshIds) where
  abbrev pub resolve_and_snapshot : PersistedTask → SchedulerState → SchedulerState
  resolve_and_snapshot task s =
      snapshot (resolve_parent_if_ready config run now ids.arbiter_id task s)

  abbrev pub verification_passed :
      PersistedTask → PersistedTask → WorkerResult → SchedulerState → SchedulerState
  verification_passed task parent result s =
      start_review config run now ids.stage_id parent (some result.summary) (
        build_and_persist_digest parent.task_id result.summary (
          set_task_status now parent.task_id TaskStatus.verified
            (set_task_status now task.task_id TaskStatus.completed s)))

  abbrev pub verification_failed :
      PersistedTask → PersistedTask → WorkerResult → TaskScheduler → TaskScheduler
  verification_failed task parent result d =
      queue_verification_fix_task run now ids.stage_id parent result.summary
        (filter (is_log task.task_id) d.artifacts)
        (on_state
          (λ s.
            set_task_status now parent.task_id TaskStatus.waiting_on_human
              (set_task_status now task.task_id TaskStatus.failed s))
          d)

  abbrev pub verification_result :
      PersistedTask
      → String
      → String
      → WorkerResult
      → TaskScheduler
      → Option PersistedTask
      → TaskScheduler
  verification_result task attempt_id agent_name result d none = d
  verification_result task attempt_id agent_name result d (some parent) =
      let recorded = record_outcome parent.task_id attempt_id verification agent_name result d in
      on_state (resolve_and_snapshot task) (
        if result.success
        then on_state (verification_passed task parent result) recorded
        else verification_failed task parent result recorded)

  -- `handleVerificationResult`
  unfoldable pub handle_verification_result :
      PersistedTask → String → String → WorkerResult → TaskScheduler → TaskScheduler
  handle_verification_result task attempt_id agent_name result d =
      verification_result task attempt_id agent_name result d (parent_of task d.state)

  abbrev pub finalized : PersistedTask → TaskScheduler → TaskScheduler
  finalized parent d =
      if truthy parent.root_path
      then record d { finalized_tasks = d.finalized_tasks ++ (parent.task_id ∷ []) }
      else d

  abbrev pub review_passed :
      PersistedTask → PersistedTask → WorkerResult → TaskScheduler → TaskScheduler
  review_passed task parent result d =
      on_state (resolve_parent_if_ready config run now ids.arbiter_id parent) (
        finalized parent (
          on_state
            (λ s. build_and_persist_digest parent.task_id result.summary (
              set_task_status now parent.task_id TaskStatus.verified
                (set_task_status now task.task_id TaskStatus.completed s)))
            d))

  abbrev pub review_failed : PersistedTask → PersistedTask → SchedulerState → SchedulerState
  review_failed task parent s = schedule_retry task.task_id (
      set_task_status now parent.task_id TaskStatus.waiting_on_human
        (set_task_status now task.task_id TaskStatus.failed s))

  abbrev pub review_result :
      PersistedTask
      → String
      → String
      → WorkerResult
      → TaskScheduler
      → Option PersistedTask
      → TaskScheduler
  review_result task attempt_id agent_name result d none = d
  review_result task attempt_id agent_name result d (some parent) =
      let recorded = record_outcome parent.task_id attempt_id review agent_name result d in
      on_state (resolve_and_snapshot task) (
        if result.success
        then review_passed task parent result recorded
        else on_state (review_failed task parent) recorded)

  -- `handleReviewResult`; the pull request of a finalized task is only named.
  unfoldable pub handle_review_result :
      PersistedTask → String → String → WorkerResult → TaskScheduler → TaskScheduler
  handle_review_result task attempt_id agent_name result d =
      review_result task attempt_id agent_name result d (parent_of task d.state)

  abbrev pub uncriticized : Option String → List String → List String
  uncriticized none queue = queue
  uncriticized (some artifact_id) queue = delete queue artifact_id

  abbrev pub artifact_accepted :
      PersistedTask → PersistedTask → WorkerResult → TaskScheduler → TaskScheduler
  artifact_accepted task parent result d =
      on_state (set_task_status now parent.task_id TaskStatus.queued) (
        flush_pending_checkpoint parent (record d {
          tasks_awaiting_critic = delete d.tasks_awaiting_critic parent.task_id;
          artifact_critic_queue =
              uncriticized (non_empty (metadata_text "artifact_id" task)) d.artifact_critic_queue;
          state = build_and_persist_digest parent.task_id result.summary (
              update_task_metadata now parent.task_id
                (put (get_or parent.metadata []) "critic_verified" (str now)) d.state);
        }))

  abbrev pub artifact_refused : PersistedTask → SchedulerState → SchedulerState
  artifact_refused parent s =
      schedule_retry parent.task_id
        (set_task_status now parent.task_id TaskStatus.waiting_on_human s)

  abbrev pub ready_again : PersistedTask → SchedulerState → SchedulerState
  ready_again parent s = record s { ready_queue = add s.ready_queue parent.task_id }

  abbrev pub artifact_outcome :
      PersistedTask → PersistedTask → WorkerResult → TaskScheduler → Bool → TaskScheduler
  artifact_outcome task parent result d true = artifact_accepted task parent result d
  artifact_outcome task parent result d false = on_state (artifact_refused parent) d

  -- The last lines of `handleArtifactVerificationResult`
  abbrev pub artifact_settled : PersistedTask → PersistedTask → SchedulerState → SchedulerState
  artifact_settled task parent s =
      snapshot (ready_again parent (resolve_parent_if_ready config run now ids.arbiter_id task s))

  abbrev pub artifact_verification_result :
      PersistedTask
      → String
      → String
      → WorkerResult
      → TaskScheduler
      → Option PersistedTask
      → TaskScheduler
  artifact_verification_result task attempt_id agent_name result d none = d
  artifact_verification_result task attempt_id agent_name result d (some parent) =
      on_state (artifact_settled task parent) (
        artifact_outcome task parent result
          (record_outcome parent.task_id attempt_id verification agent_name result d)
          result.success)

  -- `handleArtifactVerificationResult`
  unfoldable pub handle_artifact_verification_result :
      PersistedTask → String → String → WorkerResult → TaskScheduler → TaskScheduler
  handle_artifact_verification_result task attempt_id agent_name result d =
      artifact_verification_result task attempt_id agent_name result d (parent_of task d.state)

  abbrev pub arbitration_outcome :
      PersistedTask → PersistedTask → WorkerResult → SchedulerState → SchedulerState
  arbitration_outcome task parent result s =
      if result.success
      then build_and_persist_digest parent.task_id result.summary
          (set_task_status now task.task_id TaskStatus.completed s)
      else set_task_status now parent.task_id TaskStatus.waiting_on_human
          (set_task_status now task.task_id TaskStatus.waiting_on_human s)

  abbrev pub arbitration_result :
      PersistedTask
      → String
      → String
      → WorkerResult
      → TaskScheduler
      → Option PersistedTask
      → TaskScheduler
  arbitration_result task attempt_id agent_name result d none = d
  arbitration_result task attempt_id agent_name result d (some parent) =
      on_state (λ s. resolve_and_snapshot task (arbitration_outcome task parent result s))
        (record_outcome parent.task_id attempt_id review agent_name result d)

  -- `handleArbitrationResult`
  unfoldable pub handle_arbitration_result :
      PersistedTask → String → String → WorkerResult → TaskScheduler → TaskScheduler
  handle_arbitration_result task attempt_id agent_name result d =
      arbitration_result task attempt_id agent_name result d (parent_of task d.state)
