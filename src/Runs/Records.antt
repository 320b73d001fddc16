-- ===== src/Runs/Records.antt =====
-- The records of a run, as apps/orchestrator/src/types.ts declares them. A time is its ISO text.
use droid_swarm.Prelude.{String, Bool, true, false, Option, Map}
use droid_swarm.Audit.Json.{Json}

pub data RunStatus : Type 0 where
  queued running completed failed cancelled : RunStatus

pub data TaskStatus : Type 0 where
  queued planning running waiting_on_dependency waiting_on_human in_review : TaskStatus
  verified completed failed cancelled : TaskStatus

pub data AttemptStatus : Type 0 where
  running completed failed blocked : AttemptStatus

pub data Priority : Type 0 where
  low medium high urgent : Priority

abbrev pub Metadata : Type 0
Metadata = Map Json

pub record RunRecord : Type 0 where
  pub run_id : String
  pub project_id : String
  pub repo_id : Option String
  pub root_path : Option String
  pub branch : Option String
  pub workspace_id : Option String
  pub status : RunStatus
  pub created_at : String
  pub updated_at : String
  pub metadata : Option Metadata

pub record PersistedTask : Type 0 where
  pub task_id : String
  pub run_id : String
  pub project_id : Option String
  pub repo_id : Option String
  pub root_path : Option String
  pub branch : Option String
  pub workspace_id : Option String
  pub parent_task_id : Option String
  pub name : String
  pub status : TaskStatus
  pub priority : Priority
  pub created_at : String
  pub updated_at : String
  pub metadata : Option Metadata

pub record TaskAttemptRecord : Type 0 where
  pub attempt_id : String
  pub task_id : String
  pub run_id : String
  pub project_id : Option String
  pub repo_id : Option String
  pub root_path : Option String
  pub branch : Option String
  pub workspace_id : Option String
  pub agent_name : String
  pub status : AttemptStatus
  pub created_at : String
  pub updated_at : String
  pub metadata : Option Metadata

-- The event types that runs record
pub data ExecutionEventType : Type 0 where
  run_started run_completed run_failed run_cancelled run_recovered run_interrupted :
      ExecutionEventType

pub record ExecutionEvent : Type 0 where
  pub run_id : String
  pub event_type : ExecutionEventType
  pub detail : String
  pub metadata : Option Metadata
  pub created_at : String

-- The columns of `task_state_digests` and `handoff_packets` that recovery reads
pub record TaskStateDigest : Type 0 where
  pub id : String
  pub task_id : String
  pub federation_hash : Option String
  pub created_at : String

pub record HandoffPacket : Type 0 where
  pub id : String
  pub task_id : String
  pub run_id : String
  pub from_task_id : String
  pub to_task_id : Option String
  pub federation_hash : Option String
  pub created_at : String

abbrev pub task_status_text : TaskStatus → String
task_status_text queued = "queued"
task_status_text planning = "planning"
task_status_text running = "running"
task_status_text waiting_on_dependency = "waiting_on_dependency"
task_status_text waiting_on_human = "waiting_on_human"
task_status_text in_review = "in_review"
task_status_text verified = "verified"
task_status_text completed = "completed"
task_status_text failed = "failed"
task_status_text cancelled = "cancelled"

abbrev pub attempt_status_text : AttemptStatus → String
attempt_status_text running = "running"
attempt_status_text completed = "completed"
attempt_status_text failed = "failed"
attempt_status_text blocked = "blocked"

-- `terminalRunStatuses.includes(status)`
abbrev pub terminal_run_status : RunStatus → Bool
terminal_run_status queued = false
terminal_run_status running = false
terminal_run_status completed = true
terminal_run_status failed = true
terminal_run_status cancelled = true

-- `terminalTaskStatuses.includes(status)`
abbrev pub terminal_task_status : TaskStatus → Bool
terminal_task_status queued = false
terminal_task_status planning = false
terminal_task_status running = false
terminal_task_status waiting_on_dependency = false
terminal_task_status waiting_on_human = false
terminal_task_status in_review = false
terminal_task_status verified = true
terminal_task_status completed = true
terminal_task_status failed = true
terminal_task_status cancelled = true

-- `status = ?` of attempts
abbrev pub same_attempt_status : AttemptStatus → AttemptStatus → Bool
same_attempt_status running running = true
same_attempt_status completed completed = true
same_attempt_status failed failed = true
same_attempt_status blocked blocked = true
same_attempt_status _ _ = false

-- `shouldResumeTask`
abbrev pub should_resume_task : TaskStatus → Bool
should_resume_task queued = true
should_resume_task planning = true
should_resume_task running = true
should_resume_task waiting_on_dependency = true
should_resume_task waiting_on_human = true
should_resume_task in_review = true
should_resume_task _ = false
