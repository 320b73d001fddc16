-- ===== src/Scheduler/Results.antt =====
-- What the scheduler keeps about results of workers: outcomes of reviews, and checkpoints that wait
-- for a critic
-- (apps/orchestrator/src/scheduler/TaskScheduler.ts).
use droid_swarm.Prelude.{
  String, Bool, true, false, ◌&&◌, ◌||◌, ◌==◌, if◌then◌else◌, ◌<>◌, join, Option, none, some, List,
  [], ◌∷◌, ◌++◌, Map, get, put, remove, truthy, is_some,
}
use droid_swarm.Prelude.Sets.{has}
use droid_swarm.Runs.Records.{PersistedTask}
use droid_swarm.Scheduler.Policy.{or_default}
use droid_swarm.Scheduler.State.{SchedulerState, get_task, build_and_persist_digest}

pub data OutcomeStatus : Type 0 where
  passed failed blocked : OutcomeStatus

pub data OutcomeStage : Type 0 where
  verification review : OutcomeStage

pub record VerificationOutcome : Type 0 where
  pub task_id : String
  pub attempt_id : String
  pub stage : OutcomeStage
  pub status : OutcomeStatus
  pub summary : String
  pub details : Option String
  pub reviewer : String

-- A normalized `WorkerResult`: of its metadata the texts `reasonCode`, `clarificationQuestion` and
-- `compression.compressed_content`, of its checkpoint delta what is tested
pub record WorkerResult : Type 0 where
  pub success : Bool
  pub summary : String
  pub timed_out : Bool
  pub reason_code : Option String
  pub clarification_question : Option String
  pub compressed_content : Option String
  pub facts_added : List String
  pub decisions_added : List String
  pub open_questions : List String

-- The payload of a checkpoint; its delta is the one of the result.
pub record CheckpointPayload : Type 0 where
  pub compression : Option String
  pub summary : String
  pub open_questions : List String

pub record PendingCheckpoint : Type 0 where
  pub attempt_id : String
  pub summary : String
  pub payload : CheckpointPayload

pub record CheckpointRecord : Type 0 where
  pub task_id : String
  pub attempt_id : String
  pub payload : CheckpointPayload

pub record ArtifactRecord : Type 0 where
  pub artifact_id : String
  pub task_id : String
  pub kind : String
  pub summary : String

-- The scheduler: the state of the other modules, its maps and sets for critics, and the tables that
-- results are written to. The artifacts stand in the order of their creation.
pub record TaskScheduler : Type 0 where
  pub state : SchedulerState
  pub pending_checkpoints : Map PendingCheckpoint
  pub artifact_critic_queue : List String
  pub tasks_awaiting_critic : List String
  pub outcomes : List VerificationOutcome
  pub checkpoints : List CheckpointRecord
  pub artifacts : List ArtifactRecord
  pub execution_events : List (String × String)
  pub finalized_tasks : List String

abbrev pub on_state : (SchedulerState → SchedulerState) → TaskScheduler → TaskScheduler
on_state f d = record d { state = f d.state }

-- `mapResultToOutcomeStatus`
abbrev pub map_result_to_outcome_status : WorkerResult → OutcomeStatus
map_result_to_outcome_status result =
    if result.success
    then passed
    else if result.timed_out || truthy result.reason_code
    then blocked
    else failed

abbrev pub first_of : List String → Option String
first_of [] = none
first_of (text ∷ rest) = some text

-- `getClarificationQuestion`
abbrev pub get_clarification_question : WorkerResult → Option String
get_clarification_question result =
    or_default result.clarification_question (first_of result.open_questions)

-- The fragments of `buildOutcomeDetails`, each where its text is not empty
abbrev pub fragment : String → Option String → List String
fragment prefix none = []
fragment prefix (some text) = if text == "" then [] else (prefix <> text) ∷ []

abbrev pub joined : List String → Option String
joined [] = none
joined (text ∷ rest) = some (join " | " (text ∷ rest))

-- `buildOutcomeDetails`
unfoldable pub build_outcome_details : WorkerResult → Option String
build_outcome_details result = joined (
    fragment "" result.reason_code
    ++ fragment "clarification: " (get_clarification_question result))

-- `recordVerificationOutcome`, as the handlers call it
unfoldable pub record_outcome :
    String → String → OutcomeStage → String → WorkerResult → TaskScheduler → TaskScheduler
record_outcome task_id attempt_id stage agent_name result d = record d {
  outcomes =
      d.outcomes
      ++ (record {
        task_id = task_id;
        attempt_id = attempt_id;
        stage = stage;
        status = map_result_to_outcome_status result;
        summary = result.summary;
        details = build_outcome_details result;
        reviewer = agent_name;
      }
          ∷ []);
}

-- `getCompressionPayload`
abbrev pub get_compression_payload : WorkerResult → Option String
get_compression_payload result =
    or_default result.compressed_content
      (if result.summary == "" then none else some result.summary)

abbrev pub no_texts : List String → Bool
no_texts [] = true
no_texts (text ∷ rest) = false

-- `buildCheckpointPayload`
unfoldable pub build_checkpoint_payload : WorkerResult → Option CheckpointPayload
build_checkpoint_payload result =
    if (if is_some (get_compression_payload result) then false else true)
      && no_texts result.facts_added
      && no_texts result.decisions_added
      && no_texts result.open_questions
    then none
    else some (record {
      compression = get_compression_payload result;
      summary = result.summary;
      open_questions = result.open_questions;
    })

abbrev pub digest_if : Option PersistedTask → String → SchedulerState → SchedulerState
digest_if none summary s = s
digest_if (some task) summary s =
    if summary == "" then s else build_and_persist_digest task.task_id summary s

-- `persistCheckpoint`
unfoldable pub persist_checkpoint :
    String → String → String → CheckpointPayload → TaskScheduler → TaskScheduler
persist_checkpoint task_id attempt_id summary payload d = record d {
  checkpoints =
      d.checkpoints
      ++ (record { task_id = task_id; attempt_id = attempt_id; payload = payload } ∷ []);
  state = digest_if (get_task task_id d.state) summary d.state;
}

abbrev pub enqueue_payload :
    PersistedTask → String → String → TaskScheduler → Option CheckpointPayload → TaskScheduler
enqueue_payload task attempt_id summary d none = d
enqueue_payload task attempt_id summary d (some payload) =
    if has d.tasks_awaiting_critic task.task_id
    then record d {
      pending_checkpoints =
          put d.pending_checkpoints task.task_id
            (record { attempt_id = attempt_id; summary = summary; payload = payload });
    }
    else persist_checkpoint task.task_id attempt_id summary payload d

-- `enqueueCheckpoint`
unfoldable pub enqueue_checkpoint :
    PersistedTask → String → WorkerResult → TaskScheduler → TaskScheduler
enqueue_checkpoint task attempt_id result d =
    enqueue_payload task attempt_id result.summary d (build_checkpoint_payload result)

abbrev pub flush_pending : String → TaskScheduler → Option PendingCheckpoint → TaskScheduler
flush_pending task_id d none = d
flush_pending task_id d (some pending) =
    persist_checkpoint task_id pending.attempt_id pending.summary pending.payload
      (record d { pending_checkpoints = remove d.pending_checkpoints task_id })

-- `flushPendingCheckpoint`
unfoldable pub flush_pending_checkpoint : PersistedTask → TaskScheduler → TaskScheduler
flush_pending_checkpoint task d =
    flush_pending task.task_id d (get d.pending_checkpoints task.task_id)
