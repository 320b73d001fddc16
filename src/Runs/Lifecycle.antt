-- ===== src/Runs/Lifecycle.antt =====
-- `RunLifecycleService` of apps/orchestrator/src/run-lifecycle.ts and `finalizeRunOnShutdown` of
-- apps/orchestrator/src/run-shutdown.ts. One operation reads the clock once.
use droid_swarm.Prelude.{
  String, Bool, true, false, not, ◌&&◌, ◌==◌, ◌<>◌, if◌then◌else◌, any, get_or, decimal, length,
  Option, none, some, List, [], ◌∷◌, ◌++◌, filter, Map, get, put, remove, values,
}
use droid_swarm.Audit.Json.{str, num, arr, Items, nil, cons}
use droid_swarm.Runs.Records.{
  RunStatus, AttemptStatus, TaskStatus, Metadata, RunRecord, PersistedTask, TaskAttemptRecord,
  ExecutionEventType, run_started, run_completed, run_failed, run_cancelled, run_recovered,
  run_interrupted, TaskStateDigest, HandoffPacket, task_status_text, attempt_status_text,
  terminal_run_status, terminal_task_status, same_attempt_status, should_resume_task,
}
use droid_swarm.Runs.Store.{
  PersistenceClient, latest_digest, latest_handoff, record_execution_event, update_run_status,
  list_active_runs, create_task, list_tasks_by_run, update_attempt_status,
}

-- What the four transitions share: a run whose record is terminal is left alone.
unfoldable pub transition :
    RunStatus
    → ExecutionEventType
    → String
    → String
    → RunRecord
    → PersistenceClient
    → PersistenceClient
transition status event detail now run db =
    if terminal_run_status run.status
    then db
    else record_execution_event now run.run_id event detail none
        (update_run_status now run.run_id status none db)

abbrev pub start_run : String → RunRecord → PersistenceClient → PersistenceClient
start_run now = transition RunStatus.running run_started "Run started" now

abbrev pub complete_run : Option String → String → RunRecord → PersistenceClient → PersistenceClient
complete_run detail now =
    transition RunStatus.completed run_completed (get_or detail "Run completed") now

abbrev pub fail_run : String → String → RunRecord → PersistenceClient → PersistenceClient
fail_run detail now = transition RunStatus.failed run_failed detail now

abbrev pub cancel_run : Option String → String → RunRecord → PersistenceClient → PersistenceClient
cancel_run detail now =
    transition RunStatus.cancelled run_cancelled (get_or detail "Run cancelled") now

-- `cancelRunById`, `failRunById` and `completeRunById` by their transition
unfoldable pub by_id :
    (RunRecord → PersistenceClient → PersistenceClient)
    → String
    → PersistenceClient
    → PersistenceClient
by_id act run_id db = elim (get db.runs run_id) [ none ↦ db | some run ↦ act run db ]

abbrev pub cancel_run_by_id :
    Option String → String → String → PersistenceClient → PersistenceClient
cancel_run_by_id detail now = by_id (cancel_run detail now)

abbrev pub fail_run_by_id : String → String → String → PersistenceClient → PersistenceClient
fail_run_by_id detail now = by_id (fail_run detail now)

abbrev pub complete_run_by_id :
    Option String → String → String → PersistenceClient → PersistenceClient
complete_run_by_id detail now = by_id (complete_run detail now)

abbrev pub reason : String
reason = "unexpected orchestrator restart"

-- One key of an object spread; `JSON.stringify` drops a key whose value is undefined.
abbrev pub set_key : String → Option String → Metadata → Metadata
set_key k none m = remove m k
set_key k (some v) m = put m k (str v)

abbrev digest_id : Option TaskStateDigest → Option String
digest_id none = none
digest_id (some d) = some d.id

abbrev digest_hash : Option TaskStateDigest → Option String
digest_hash none = none
digest_hash (some d) = d.federation_hash

abbrev handoff_id : Option HandoffPacket → Option String
handoff_id none = none
handoff_id (some h) = some h.id

abbrev handoff_hash : Option HandoffPacket → Option String
handoff_hash none = none
handoff_hash (some h) = h.federation_hash

-- The record that recovery writes for a task it resumes
unfoldable pub requeued :
    String → Option TaskStateDigest → Option HandoffPacket → PersistedTask → PersistedTask
requeued now digest handoff task = record task {
  status = TaskStatus.queued;
  metadata = some (
      set_key "recovery_handoff_hash" (handoff_hash handoff) (
        set_key "recovery_handoff_id" (handoff_id handoff) (
          set_key "recovery_digest_hash" (digest_hash digest) (
            set_key "recovery_digest_id" (digest_id digest) (
              put (put (get_or task.metadata []) "recovery_reason" (str "requeued_after_restart"))
                "recovery_previous_status" (str (task_status_text task.status)))))));
  updated_at = now;
}

abbrev pub failure_reason : PersistedTask → String
failure_reason task =
    "Task "
    <> task.task_id
    <> " in status "
    <> task_status_text task.status
    <> " cannot resume after restart"

-- The record that recovery writes for a task it gives up
unfoldable pub given_up : String → PersistedTask → PersistedTask
given_up now task = record task {
  status = TaskStatus.failed;
  metadata = some (put (get_or task.metadata []) "recovery_reason" (str (failure_reason task)));
  updated_at = now;
}

-- The loop's state: the tables, `resumedTasks` and `failedTasks`
pub record Recovery : Type 0 where
  pub db : PersistenceClient
  pub resumed_tasks : List String
  pub failed_tasks : List (String × String)

unfoldable pub recover_task : String → String → PersistedTask → Recovery → Recovery
recover_task now run_id task s =
    if terminal_task_status task.status
    then s
    else if should_resume_task task.status
    then record {
      db =
          create_task
            (requeued now (latest_digest task.task_id s.db)
              (latest_handoff task.task_id run_id s.db) task)
            s.db;
      resumed_tasks = s.resumed_tasks ++ (task.task_id ∷ []);
      failed_tasks = s.failed_tasks;
    }
    else record {
      db = create_task (given_up now task) s.db;
      resumed_tasks = s.resumed_tasks;
      failed_tasks = s.failed_tasks ++ ((task.task_id, failure_reason task) ∷ []);
    }

unfoldable pub recover_tasks : String → String → List PersistedTask → Recovery → Recovery
recover_tasks now run_id [] s = s
recover_tasks now run_id (task ∷ tasks) s =
    recover_tasks now run_id tasks (recover_task now run_id task s)

-- The rows of `SELECT attempt_id FROM task_attempts WHERE run_id = ? AND status = ?`
abbrev pub interrupted_attempts :
    String → AttemptStatus → Map TaskAttemptRecord → List TaskAttemptRecord
interrupted_attempts run_id status attempts =
    filter (λ a. (a.run_id == run_id) && same_attempt_status a.status status) (values attempts)

abbrev pub interrupted_metadata : AttemptStatus → Metadata
interrupted_metadata status =
    ("reason", str reason) ∷ ("recovery_interrupted_status", str (attempt_status_text status)) ∷ []

unfoldable pub fail_attempts :
    String → AttemptStatus → Map TaskAttemptRecord → List TaskAttemptRecord → Map TaskAttemptRecord
fail_attempts now status attempts [] = attempts
fail_attempts now status attempts (a ∷ rest) =
    fail_attempts now status
      (update_attempt_status now a.attempt_id AttemptStatus.failed
        (some (interrupted_metadata status)) attempts)
      rest

-- One round of the loop over `interruptedAttemptStatuses`
abbrev pub fail_status :
    String → String → AttemptStatus → Map TaskAttemptRecord → Map TaskAttemptRecord
fail_status now run_id status attempts =
    fail_attempts now status attempts (interrupted_attempts run_id status attempts)

unfoldable pub mark_interrupted_attempts_failed :
    String → String → PersistenceClient → PersistenceClient
mark_interrupted_attempts_failed now run_id db = record db {
  attempts =
      fail_status now run_id AttemptStatus.blocked
        (fail_status now run_id AttemptStatus.running db.attempts);
}

pub record RunRecoverySummary : Type 0 where
  pub run_id : String
  pub resumed_tasks : List String
  pub failed_tasks : List (String × String)

abbrev first_reason : List (String × String) → String
first_reason [] = "No resumable work after restart"
first_reason (f ∷ fs) = f.1

abbrev empty {ℓ} : {A : Type ℓ} → List A → Bool
empty [] = true
empty (x ∷ xs) = false

-- What follows the loop of `recoverRun`
unfoldable pub settle_run : String → RunRecord → Recovery → PersistenceClient
settle_run now run s =
    if empty s.resumed_tasks
    then fail_run (first_reason s.failed_tasks) now run (
        record_execution_event now run.run_id run_recovered "Run recovery failed"
          (some (("reason", str (first_reason s.failed_tasks)) ∷ [])) s.db)
    else record_execution_event now run.run_id run_recovered "Run recovered after restart"
        (some
          (("reason", str reason) ∷ ("resumedTasks", num (decimal (length s.resumed_tasks))) ∷ []))
        (update_run_status now run.run_id RunStatus.running none s.db)

-- The loop of `recoverRun`, after the attempts are marked
abbrev pub recovered_tasks : String → String → PersistenceClient → Recovery
recovered_tasks now run_id db =
    recover_tasks now run_id (list_tasks_by_run run_id db)
      (record { db = db; resumed_tasks = []; failed_tasks = [] })

unfoldable pub recover_run :
    String → RunRecord → PersistenceClient → PersistenceClient × RunRecoverySummary
recover_run now run db =
    let s = recovered_tasks now run.run_id (mark_interrupted_attempts_failed now run.run_id db) in
    (
      settle_run now run s,
      record {
        run_id = run.run_id;
        resumed_tasks = s.resumed_tasks;
        failed_tasks = s.failed_tasks;
      },
    )

unfoldable pub recover_runs :
    String → List RunRecord → PersistenceClient → PersistenceClient × List RunRecoverySummary
recover_runs now [] db = (db, [])
recover_runs now (run ∷ runs) db =
    let one = recover_run now run db in
    let rest = recover_runs now runs one.0 in (rest.0, one.1 ∷ rest.1)

-- `recoverInterruptedRuns`; the summaries are also kept for `getRecoverySummaries`.
abbrev pub recover_interrupted_runs :
    String → PersistenceClient → PersistenceClient × List RunRecoverySummary
recover_interrupted_runs now db = recover_runs now (list_active_runs db) db

pub data ShutdownResult : Type 0 where
  noop completed interrupted : ShutdownResult

abbrev pub active_tasks : String → PersistenceClient → List PersistedTask
active_tasks run_id db =
    filter (λ t. not (terminal_task_status t.status)) (list_tasks_by_run run_id db)

abbrev texts : List PersistedTask → Items
texts [] = nil
texts (t ∷ ts) = cons (str t.task_id) (texts ts)

unfoldable pub finalize_run_on_shutdown :
    String → String → PersistenceClient → PersistenceClient × ShutdownResult
finalize_run_on_shutdown now run_id db = elim (get db.runs run_id) [
  | none ↦ (db, noop)
  | some run ↦
      if terminal_run_status run.status
      then (db, noop)
      else if any (λ t. not (terminal_task_status t.status)) (list_tasks_by_run run_id db)
      then (
        record_execution_event now run_id run_interrupted "Orchestrator shutdown interrupted run"
            (some (("pending_tasks", arr (texts (active_tasks run_id db))) ∷ [])) db,
        interrupted,
      )
      else (complete_run (some "Run completed at shutdown") now run db, completed)
]
