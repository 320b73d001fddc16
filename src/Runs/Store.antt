-- ===== src/Runs/Store.antt =====
-- The tables of apps/orchestrator/src/persistence/repositories.ts that runs use. A table is a map
-- by its primary key; rows that tie in an `ORDER BY` keep the order of the table.
use Prim.Native.Nat.{Ordering}
use Prim.Native.String.{compare}
use droid_swarm.Prelude.{
  String, Bool, true, false, not, ◌&&◌, ◌||◌, ◌==◌, Option, none, some, List, [], ◌∷◌, ◌++◌, filter,
  Map, get, put, values,
}
use droid_swarm.Prelude.Rows.{order_by}
use droid_swarm.Runs.Records.{
  RunStatus, AttemptStatus, Metadata, RunRecord, PersistedTask, TaskAttemptRecord, ExecutionEvent,
  ExecutionEventType, TaskStateDigest, HandoffPacket, terminal_run_status,
}

pub record PersistenceClient : Type 0 where
  pub runs : Map RunRecord
  pub tasks : Map PersistedTask
  pub attempts : Map TaskAttemptRecord
  pub digests : List TaskStateDigest
  pub handoffs : List HandoffPacket
  pub execution_events : List ExecutionEvent

-- The texts' order is SQLite's order of the times.
abbrev pub earlier : String → String → Bool
earlier a b = elim (compare a b) [ Ordering.lt ↦ true | _ ↦ false ]

abbrev pub first {ℓ} : {A : Type ℓ} → List A → Option A
first [] = none
first (x ∷ xs) = some x

-- Writing without metadata keeps what is there.
abbrev metadata_or : Option Metadata → Option Metadata → Option Metadata
metadata_or none old = old
metadata_or (some m) old = some m

abbrev pub create_run : RunRecord → PersistenceClient → PersistenceClient
create_run run db = record db { runs = put db.runs run.run_id run }

-- `RunRepository.updateStatus`
unfoldable pub update_run_status :
    String → String → RunStatus → Option Metadata → PersistenceClient → PersistenceClient
update_run_status now run_id status metadata db = elim (get db.runs run_id) [
  | none ↦ db
  | some existing ↦
      create_run
        (record existing {
          status = status;
          metadata = metadata_or metadata existing.metadata;
          updated_at = now;
        })
        db
]

-- `RunRepository.updateMetadata`
unfoldable pub update_run_metadata :
    String → String → Metadata → PersistenceClient → PersistenceClient
update_run_metadata now run_id metadata db = elim (get db.runs run_id) [
  | none ↦ db
  | some existing ↦ create_run (record existing { metadata = some metadata; updated_at = now }) db
]

-- `RunRepository.listActiveRuns`
abbrev pub list_active_runs : PersistenceClient → List RunRecord
list_active_runs db =
    order_by (λ a b. earlier b.updated_at a.updated_at)
      (filter (λ r. not (terminal_run_status r.status)) (values db.runs))

abbrev pub create_task : PersistedTask → PersistenceClient → PersistenceClient
create_task task db = record db { tasks = put db.tasks task.task_id task }

-- `TaskRepository.listByRun`
abbrev pub list_tasks_by_run : String → PersistenceClient → List PersistedTask
list_tasks_by_run run_id db =
    order_by (λ a b. earlier a.created_at b.created_at)
      (filter (λ t. t.run_id == run_id) (values db.tasks))

abbrev pub create_attempt : TaskAttemptRecord → PersistenceClient → PersistenceClient
create_attempt attempt db = record db { attempts = put db.attempts attempt.attempt_id attempt }

-- `TaskAttemptRepository.updateStatus`, on the table
unfoldable pub update_attempt_status :
    String
    → String
    → AttemptStatus
    → Option Metadata
    → Map TaskAttemptRecord
    → Map TaskAttemptRecord
update_attempt_status now attempt_id status metadata attempts = elim (get attempts attempt_id) [
  | none ↦ attempts
  | some existing ↦
      put attempts attempt_id
        (record existing { status = status; metadata = metadata; updated_at = now })
]

-- `TaskStateDigestRepository.getLatestForTask`
unfoldable pub latest_digest : String → PersistenceClient → Option TaskStateDigest
latest_digest task_id db = first (
    order_by (λ a b. earlier b.created_at a.created_at)
      (filter (λ d. d.task_id == task_id) db.digests))

abbrev addressed : String → Option String → Bool
addressed task_id none = false
addressed task_id (some to) = to == task_id

-- `HandoffPacketRepository.getLatest` with a run
unfoldable pub latest_handoff : String → String → PersistenceClient → Option HandoffPacket
latest_handoff task_id run_id db = first (
    order_by (λ a b. earlier b.created_at a.created_at)
      (filter
        (λ h.
          (h.task_id == task_id || h.from_task_id == task_id || addressed task_id h.to_task_id)
          && (h.run_id == run_id))
        db.handoffs))

-- `recordExecutionEvent`
abbrev pub record_execution_event :
    String
    → String
    → ExecutionEventType
    → String
    → Option Metadata
    → PersistenceClient
    → PersistenceClient
record_execution_event now run_id event_type detail metadata db = record db {
  execution_events =
      db.execution_events
      ++ (record {
        run_id = run_id;
        event_type = event_type;
        detail = detail;
        metadata = metadata;
        created_at = now;
      }
          ∷ []);
}
