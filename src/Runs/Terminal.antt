-- ===== src/Runs/Terminal.antt =====
-- What the operations of `RunLifecycleService` and `finalizeRunOnShutdown` do to a run that has
-- ended (apps/orchestrator/src/run-lifecycle.ts, apps/orchestrator/src/run-shutdown.ts).
use droid_swarm.Prelude.{
  String, true, false, not, ◌==◌, Option, none, some, List, [], ◌∷◌, filter, any, get, put, values,
  get-put, All, ◌≡◌, refl, sym, subst, inl, inr, arith, eq_iff, Bool-cases, Option-cases,
}
use droid_swarm.Prelude.Rows.{IsTable, get-key, put-IsTable, values-get, order_by-All}
use droid_swarm.Runs.Records.{
  RunRecord, RunStatus, ExecutionEventType, terminal_task_status, terminal_run_status,
}
use droid_swarm.Runs.Store.{
  PersistenceClient, update_run_status, list_active_runs, list_tasks_by_run,
}
use droid_swarm.Runs.Lifecycle.{
  Recovery, transition, by_id, cancel_run_by_id, fail_run_by_id, complete_run_by_id, settle_run,
  recover_run, recover_runs, recover_interrupted_runs, finalize_run_on_shutdown, recovered_tasks,
  mark_interrupted_attempts_failed,
}
use droid_swarm.Runs.Recovery.{recover_tasks-attempts}

-- What a caller does to runs by their ids
pub data Operation : Type 0 where
  cancel : Option String → String → Operation
  fail : String → String → Operation
  complete : Option String → String → Operation
  recover : Operation
  shutdown : String → Operation

unfoldable pub perform : String → Operation → PersistenceClient → PersistenceClient
perform now (cancel detail run_id) db = cancel_run_by_id detail now run_id db
perform now (fail detail run_id) db = fail_run_by_id detail now run_id db
perform now (complete detail run_id) db = complete_run_by_id detail now run_id db
perform now recover db = (recover_interrupted_runs now db).0
perform now (shutdown run_id) db = (finalize_run_on_shutdown now run_id db).0

-- The operations in order, each with its time
unfoldable pub perform_all : List (String × Operation) → PersistenceClient → PersistenceClient
perform_all [] db = db
perform_all (o ∷ os) db = perform_all os (perform o.0 o.1 db)

abbrev RunTable : PersistenceClient → Type 0
RunTable db = IsTable (λ r. r.run_id) db.runs

-- The run `j` has ended with the record `run`, in a table of runs.
abbrev Ended : String → RunRecord → PersistenceClient → Type 0
Ended j run db = RunTable db × (get db.runs j ≡ some run)

update_missing :
    (now id : String) (status : RunStatus) (db : PersistenceClient)
    → get db.runs id ≡ none
    → update_run_status now id status none db ≡ db
unfolding update_run_status
update_missing now id status db gone = rw (gone, update_run_status) refl

update_found :
    (now id : String) (status : RunStatus) (db : PersistenceClient) (r : RunRecord)
    → get db.runs id ≡ some r
    → update_run_status now id status none db
      ≡ record db { runs = put db.runs r.run_id (record r { status = status; updated_at = now }) }
unfolding update_run_status
update_found now id status db r found = rw (found, update_run_status) refl

module _ (act : RunRecord → PersistenceClient → PersistenceClient) (id : String)
    (db : PersistenceClient) where
  by_id_missing : get db.runs id ≡ none → by_id act id db ≡ db
  unfolding by_id
  by_id_missing gone = rw (gone, by_id) refl

  by_id_found : (r : RunRecord) → get db.runs id ≡ some r → by_id act id db ≡ act r db
  unfolding by_id
  by_id_found r found = rw (found, by_id) refl

-- An update of another run keeps the run.
update_run_status-Ended :
    (now id : String) (status : RunStatus) (j : String) (run : RunRecord) (db : PersistenceClient)
    → (id == j) ≡ false
    → Ended j run db
    → Ended j run (update_run_status now id status none db)
update_run_status-Ended now id status j run db other h = elim (Option-cases (get db.runs id)) [
  | inl gone ↦ subst (Ended j run) (sym (update_missing now id status db gone)) h
  | inr (r, found) ↦ subst (Ended j run) (sym (update_found now id status db r found)) (
    put-IsTable (λ x. x.run_id) db.runs (record r { status = status; updated_at = now }) h.0,
    rw (get-put db.runs r.run_id j _, get-key (λ x. x.run_id) db.runs id r h.0 found, other) h.1,
  )
]

module _ (j : String) (run : RunRecord) (ended : terminal_run_status run.status ≡ true) where
  -- A transition of a record that is stored keeps a run that has ended.
  transition-Ended :
      (status : RunStatus) (event : ExecutionEventType) (detail now : String) (r : RunRecord)
      (db : PersistenceClient)
      → (r.run_id ≡ j → terminal_run_status r.status ≡ true)
      → Ended j run db
      → Ended j run (transition status event detail now r db)
  unfolding transition
  transition-Ended status event detail now r db stored h =
      elim (Bool-cases (terminal_run_status r.status)) [
        | inl over ↦ rw over h
        | inr active ↦ rw active (
            update_run_status-Ended now r.run_id status j run db
              (elim (Bool-cases (r.run_id == j)) [
                | inl same ↦ ground (arith, active, stored ((eq_iff r.run_id j).0 same))
                | inr other ↦ other
              ])
              h)
      ]

  by_id-Ended :
      (status : RunStatus) (event : ExecutionEventType) (detail now id : String)
      (db : PersistenceClient)
      → Ended j run db
      → Ended j run (by_id (transition status event detail now) id db)
  by_id-Ended status event detail now id db h = elim (Option-cases (get db.runs id)) [
    | inl gone ↦ subst (Ended j run) (sym (by_id_missing _ id db gone)) h
    | inr (r, found) ↦ subst (Ended j run) (sym (by_id_found _ id db r found)) (
        transition-Ended status event detail now r db
          (λ same.
            ground (arith, ended, found, h.1, same, get-key (λ x. x.run_id) db.runs id r h.0 found))
          h)
  ]

  settle_run-Ended :
      (now : String) (r : RunRecord) (s : Recovery) (ts : List String)
      → s.resumed_tasks ≡ ts
      → (r.run_id ≡ j → terminal_run_status r.status ≡ true)
      → terminal_run_status r.status ≡ false
      → Ended j run s.db
      → Ended j run (settle_run now r s)
  unfolding settle_run
  settle_run-Ended now r s [] ids stored active h =
      rw ids (transition-Ended RunStatus.failed _ _ now r _ stored h)
  settle_run-Ended now r s (t ∷ ts) ids stored active h = rw ids (
      update_run_status-Ended now r.run_id RunStatus.running j run s.db
        (elim (Bool-cases (r.run_id == j)) [
          | inl same ↦ ground (arith, active, stored ((eq_iff r.run_id j).0 same))
          | inr other ↦ other
        ])
        h)

  -- The runs that recovery goes through are active, and none of them is `j`.
  Active : RunRecord → Type 0
  Active r = (terminal_run_status r.status ≡ false) × ((r.run_id == j) ≡ false)

  recover_runs-Ended :
      (now : String) (rs : List RunRecord) (db : PersistenceClient)
      → All Active rs
      → Ended j run db
      → Ended j run (recover_runs now rs db).0
  unfolding recover_runs recover_run mark_interrupted_attempts_failed Active
  recover_runs-Ended now [] db active h = h
  recover_runs-Ended now (r ∷ rs) db active h =
      let marked = mark_interrupted_attempts_failed now r.run_id db in
      let kept =
        (recover_tasks-attempts now r.run_id (list_tasks_by_run r.run_id marked)
          (record { db = marked; resumed_tasks = []; failed_tasks = [] })).1 in
      recover_runs-Ended now rs _ active.1 (
        settle_run-Ended now r (recovered_tasks now r.run_id marked) _ refl
          (λ same. ground (arith, active.0, same, eq_iff r.run_id j)) active.0.0 (rw kept h))

  list_active_runs-Active :
      (db : PersistenceClient) → Ended j run db → All Active (list_active_runs db)
  unfolding Active
  list_active_runs-Active db h =
      order_by-All Active _ _ (go (values db.runs) (values-get (λ r. r.run_id) db.runs h.0))
    where
      go :
          (rs : List RunRecord)
          → All (λ r. get db.runs r.run_id ≡ some r) rs
          → All Active (filter (λ r. not (terminal_run_status r.status)) rs)
      go [] found = tt
      go (r ∷ rs) found = elim (Bool-cases (terminal_run_status r.status)) [
        | inl over ↦ rw over (go rs found.1)
        | inr active ↦ rw active (
          (
            active,
            elim (Bool-cases (r.run_id == j)) [
              | inl same ↦ ground (arith, ended, active, found.0, h.1, (eq_iff r.run_id j).0 same)
              | inr other ↦ other
            ],
          ),
          go rs found.1,
        )
      ]

  finalize-Ended :
      (now id : String) (db : PersistenceClient)
      → Ended j run db
      → Ended j run (finalize_run_on_shutdown now id db).0
  unfolding finalize_run_on_shutdown
  finalize-Ended now id db h = elim (Option-cases (get db.runs id)) [
    | inl gone ↦ rw (gone, finalize_run_on_shutdown) h
    | inr (r, found) ↦
        rw (found, finalize_run_on_shutdown)
          (elim (Bool-cases (terminal_run_status r.status)) [
            | inl over ↦ rw over h
            | inr active ↦
                rw active
                  (elim (Bool-cases
                    (any (λ t. not (terminal_task_status t.status)) (list_tasks_by_run id db))) [
                      | inl busy ↦ rw busy h
                      | inr idle ↦ rw idle (
                          transition-Ended RunStatus.completed _ _ now r db
                            (λ same. ground (
                              arith,
                              ended,
                              found,
                              h.1,
                              same,
                              get-key (λ x. x.run_id) db.runs id r h.0 found,
                            ))
                            h)
                    ])
          ])
  ]

  perform-Ended :
      (now : String) (o : Operation) (db : PersistenceClient)
      → Ended j run db
      → Ended j run (perform now o db)
  unfolding perform
  perform-Ended now (cancel detail id) db h = by_id-Ended RunStatus.cancelled _ _ now id db h
  perform-Ended now (fail detail id) db h = by_id-Ended RunStatus.failed _ _ now id db h
  perform-Ended now (complete detail id) db h = by_id-Ended RunStatus.completed _ _ now id db h
  perform-Ended now recover db h =
      recover_runs-Ended now (list_active_runs db) db (list_active_runs-Active db h) h
  perform-Ended now (shutdown id) db h = finalize-Ended now id db h

  -- A run that has ended keeps its record, and the table its keys, whatever runs are then
  -- cancelled, failed, completed, recovered or shut down by their ids.
  pub perform_all-ended :
      (os : List (String × Operation)) (db : PersistenceClient)
      → IsTable (λ r. r.run_id) db.runs
      → get db.runs j ≡ some run
      → IsTable (λ r. r.run_id) (perform_all os db).runs
        × (get (perform_all os db).runs j ≡ some run)
  unfolding perform_all
  perform_all-ended [] db table found = (table, found)
  perform_all-ended (o ∷ os) db table found =
      let h = perform-Ended o.0 o.1 db (table, found) in
      perform_all-ended os (perform o.0 o.1 db) h.0 h.1
