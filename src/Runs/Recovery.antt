-- ===== src/Runs/Recovery.antt =====
-- What `recoverRun` leaves in the tables (apps/orchestrator/src/run-lifecycle.ts).
use droid_swarm.Prelude.{
  String, false, not, none, some, List, [], ◌∷◌, ◌++◌, map, filter, get, get-put, ◌≡◌, refl, sym,
  ap, ◌∙◌, inl, inr, arith, eq_refl, Bool-cases,
}
use droid_swarm.Prelude.Rows.{map_option, IsTable}
use droid_swarm.Runs.Records.{
  RunRecord, RunStatus, PersistedTask, terminal_task_status, terminal_run_status,
}
use droid_swarm.Runs.Store.{PersistenceClient, list_tasks_by_run, update_run_status}
use droid_swarm.Runs.Lifecycle.{
  Recovery, recover_task, recover_tasks, recovered_tasks, mark_interrupted_attempts_failed,
  settle_run, recover_run, transition, active_tasks,
}
use droid_swarm.Runs.Requeue.{active-resumes}
use droid_swarm.Runs.Interrupted.{interrupted, mark_interrupted-get}

settle_run-tables :
    (now : String) (run : RunRecord) (s : Recovery)
    → ((settle_run now run s).tasks ≡ s.db.tasks)
      × ((settle_run now run s).attempts ≡ s.db.attempts)
unfolding settle_run transition update_run_status
settle_run-tables now run s = (ground arith, ground arith)

pub recover_tasks-attempts :
    (now run_id : String) (ts : List PersistedTask) (s : Recovery)
    → ((recover_tasks now run_id ts s).db.attempts ≡ s.db.attempts)
      × ((recover_tasks now run_id ts s).db.runs ≡ s.db.runs)
unfolding recover_tasks recover_task
recover_tasks-attempts now run_id [] s = (refl, refl)
recover_tasks-attempts now run_id (t ∷ ts) s =
    let rest = recover_tasks-attempts now run_id ts (recover_task now run_id t s) in
    (rest.0 ∙ ground arith, rest.1 ∙ ground arith)

-- Recovery of a run fails every attempt of the run that is running or blocked, with the status
-- that it had in its metadata, and changes no other attempt.
pub recover_run-attempts :
    (now : String) (run : RunRecord) (db : PersistenceClient)
    → IsTable (λ a. a.attempt_id) db.attempts
    → (j : String)
    → get (recover_run now run db).0.attempts j
      ≡ map_option (interrupted now run.run_id) (get db.attempts j)
unfolding recover_run
recover_run-attempts now run db table j =
    let marked = mark_interrupted_attempts_failed now run.run_id db in
    ap (λ m. get m j)
      ((settle_run-tables now run (recovered_tasks now run.run_id marked)).1
        ∙ (recover_tasks-attempts now run.run_id (list_tasks_by_run run.run_id marked) _).0)
    ∙ mark_interrupted-get now run.run_id db table j

-- The ids of the tasks that have not ended
abbrev active_ids : List PersistedTask → List String
active_ids ts = map (λ t. t.task_id) (filter (λ t. not (terminal_task_status t.status)) ts)

append_assoc : (xs ys zs : List String) → (xs ++ ys) ++ zs ≡ xs ++ (ys ++ zs)
append_assoc [] ys zs = refl
append_assoc (x ∷ xs) ys zs = ap (λ l. x ∷ l) (append_assoc xs ys zs)

append_nil : (xs : List String) → xs ++ [] ≡ xs
append_nil [] = refl
append_nil (x ∷ xs) = ap (λ l. x ∷ l) (append_nil xs)

recover_task-lists :
    (now run_id : String) (t : PersistedTask) (ts : List PersistedTask) (s : Recovery)
    → ((recover_task now run_id t s).resumed_tasks ++ active_ids ts
        ≡ s.resumed_tasks ++ active_ids (t ∷ ts))
      × ((recover_task now run_id t s).failed_tasks ≡ s.failed_tasks)
unfolding recover_task
recover_task-lists now run_id t ts s = elim (Bool-cases (terminal_task_status t.status)) [
  | inl ended ↦ rw ended (refl, refl)
  | inr active ↦
      rw (active, active-resumes t.status active)
        (append_assoc s.resumed_tasks (t.task_id ∷ []) (active_ids ts), refl)
]

recover_tasks-lists :
    (now run_id : String) (ts : List PersistedTask) (s : Recovery)
    → ((recover_tasks now run_id ts s).resumed_tasks ≡ s.resumed_tasks ++ active_ids ts)
      × ((recover_tasks now run_id ts s).failed_tasks ≡ s.failed_tasks)
unfolding recover_tasks
recover_tasks-lists now run_id [] s = (sym (append_nil s.resumed_tasks), refl)
recover_tasks-lists now run_id (t ∷ ts) s =
    let one = recover_task-lists now run_id t ts s in
    let rest = recover_tasks-lists now run_id ts (recover_task now run_id t s) in
    (rest.0 ∙ one.0, rest.1 ∙ one.1)

-- Recovery resumes exactly the tasks of the run that have not ended, in the order of their
-- creation, and gives no task up.
recover_run-summary :
    (now : String) (run : RunRecord) (db : PersistenceClient)
    → ((recover_run now run db).1.resumed_tasks ≡ map (λ t. t.task_id) (active_tasks run.run_id db))
      × ((recover_run now run db).1.failed_tasks ≡ [])
unfolding recover_run mark_interrupted_attempts_failed
recover_run-summary now run db =
    recover_tasks-lists now run.run_id (list_tasks_by_run run.run_id db) _

pub update_run_status-get :
    (now run_id : String) (status : RunStatus) (db : PersistenceClient) (run : RunRecord)
    → get db.runs run_id ≡ some run
    → run.run_id ≡ run_id
    → get (update_run_status now run_id status none db).runs run_id
      ≡ some (record run { status = status; updated_at = now })
unfolding update_run_status
update_run_status-get now run_id status db run found key =
    rw (found, update_run_status)
      (rw (get-put db.runs run.run_id run_id _, key, eq_refl run_id) refl)

abbrev pub settled : List PersistedTask → RunStatus
settled [] = RunStatus.failed
settled (t ∷ ts) = RunStatus.running

settle_run-status :
    (now : String) (run row : RunRecord) (ts : List PersistedTask) (s : Recovery)
    → terminal_run_status run.status ≡ false
    → s.resumed_tasks ≡ map (λ t. t.task_id) ts
    → get s.db.runs run.run_id ≡ some row
    → row.run_id ≡ run.run_id
    → get (settle_run now run s).runs run.run_id
      ≡ some (record row { status = settled ts; updated_at = now })
unfolding settle_run transition
settle_run-status now run row [] s active ids found key =
    rw (ids, active) (update_run_status-get now run.run_id RunStatus.failed _ row found key)
settle_run-status now run row (t ∷ ts) s active ids found key =
    rw ids (update_run_status-get now run.run_id RunStatus.running s.db row found key)

-- After its recovery a run that had not ended is running when one of its tasks had not ended, and
-- failed when all had.
pub recover_run-status :
    (now : String) (run : RunRecord) (db : PersistenceClient)
    → get db.runs run.run_id ≡ some run
    → terminal_run_status run.status ≡ false
    → get (recover_run now run db).0.runs run.run_id
      ≡ some (record run { status = settled (active_tasks run.run_id db); updated_at = now })
unfolding recover_run mark_interrupted_attempts_failed
recover_run-status now run db found active =
    let marked = mark_interrupted_attempts_failed now run.run_id db in
    settle_run-status now run run (active_tasks run.run_id db)
      (recovered_tasks now run.run_id marked) active (recover_run-summary now run db).0
      (ap (λ m. get m run.run_id)
          (recover_tasks-attempts now run.run_id (list_tasks_by_run run.run_id marked) _).1
        ∙ found)
      refl
