-- ===== src/Runs/Requeue.antt =====
-- The loop of `recoverRun` over the tasks of a run (apps/orchestrator/src/run-lifecycle.ts).
use droid_swarm.Prelude.{
  String, true, false, not, ◌&&◌, ◌==◌, if◌then◌else◌, some, List, [], ◌∷◌, filter, Map, get, put,
  values, All, get-put, ◌≡◌, refl, ap, ◌∙◌, ◌⊎◌, inl, inr, arith, eq_iff, Bool-cases,
}
use droid_swarm.Prelude.Rows.{
  map_option, IsTable, get-key, rewrite_all, rewrite_all-get, values-get, values-Mem, order_by-All,
  order_by-Mem, filter-All, filter-Mem,
}
use mathlib.Core.List.{Memᴰ}
use droid_swarm.Runs.Records.{TaskStatus, PersistedTask, terminal_task_status, should_resume_task}
use droid_swarm.Runs.Store.{PersistenceClient, latest_digest, latest_handoff, list_tasks_by_run}
use droid_swarm.Runs.Lifecycle.{Recovery, requeued, recover_task, recover_tasks, recovered_tasks}

-- A task that has not ended can be resumed.
pub active-resumes : (s : TaskStatus) → terminal_task_status s ≡ false → should_resume_task s ≡ true
active-resumes TaskStatus.queued h = refl
active-resumes TaskStatus.planning h = refl
active-resumes TaskStatus.running h = refl
active-resumes TaskStatus.waiting_on_dependency h = refl
active-resumes TaskStatus.waiting_on_human h = refl
active-resumes TaskStatus.in_review h = refl
active-resumes TaskStatus.verified h = ground (arith, h)
active-resumes TaskStatus.completed h = ground (arith, h)
active-resumes TaskStatus.failed h = ground (arith, h)
active-resumes TaskStatus.cancelled h = ground (arith, h)

latest_digest-same :
    (id : String) (a b : PersistenceClient)
    → a.digests ≡ b.digests
    → latest_digest id a ≡ latest_digest id b
unfolding latest_digest
latest_digest-same id a b same = rw same refl

latest_handoff-same :
    (id run_id : String) (a b : PersistenceClient)
    → a.handoffs ≡ b.handoffs
    → latest_handoff id run_id a ≡ latest_handoff id run_id b
unfolding latest_handoff
latest_handoff-same id run_id a b same = rw same refl

-- What recovery of a run makes of a task, by the digests and handoffs of the tables
abbrev pub recovered : String → String → PersistenceClient → PersistedTask → PersistedTask
recovered now run_id db task =
    if task.run_id == run_id && not (terminal_task_status task.status)
    then requeued now (latest_digest task.task_id db) (latest_handoff task.task_id run_id db) task
    else task

module _ (now run_id : String) (db : PersistenceClient) where
  -- One round of the loop, on the table of tasks
  step : Map PersistedTask → PersistedTask → Map PersistedTask
  step tasks task =
      if task.run_id == run_id && not (terminal_task_status task.status)
      then put tasks task.task_id (recovered now run_id db task)
      else tasks

  step-get :
      (m : Map PersistedTask) (x : PersistedTask)
      → (get m x.task_id ≡ some x) ⊎ (get m x.task_id ≡ some (recovered now run_id db x))
      → (j : String)
      → get (step m x) j ≡ (if x.task_id == j then some (recovered now run_id db x) else get m j)
  unfolding step
  step-get m x h j = elim (Bool-cases (x.run_id == run_id && not (terminal_task_status x.status))) [
    | inl active ↦ rw active (get-put m x.task_id j _)
    | inr kept ↦ rw kept (ground (arith, eq_iff x.task_id j, found kept))
  ]
    where
      found :
          (x.run_id == run_id && not (terminal_task_status x.status)) ≡ false
          → get m x.task_id ≡ some x
      found kept = elim h [ inl e ↦ e | inr e ↦ e ∙ rw kept refl ]

  recover_task-step :
      (task : PersistedTask) (s : Recovery)
      → (task.run_id == run_id) ≡ true
      → s.db.digests ≡ db.digests
      → s.db.handoffs ≡ db.handoffs
      → ((recover_task now run_id task s).db.tasks ≡ step s.db.tasks task)
        × ((recover_task now run_id task s).db.digests ≡ db.digests)
        × ((recover_task now run_id task s).db.handoffs ≡ db.handoffs)
  unfolding recover_task step requeued
  recover_task-step task s own hd hh = elim (Bool-cases (terminal_task_status task.status)) [
    | inl ended ↦ rw (ended, own) (refl, hd, hh)
    | inr active ↦
        rw (active, own, active-resumes task.status active)
          (
            rw
                (
                  latest_digest-same task.task_id s.db db hd,
                  latest_handoff-same task.task_id run_id s.db db hh,
                )
                refl,
            hd,
            hh,
          )
  ]

  recover_tasks-step :
      (ts : List PersistedTask) (s : Recovery)
      → All (λ t. (t.run_id == run_id) ≡ true) ts
      → s.db.digests ≡ db.digests
      → s.db.handoffs ≡ db.handoffs
      → (recover_tasks now run_id ts s).db.tasks
        ≡ rewrite_all (λ t. t.task_id) (recovered now run_id db) step step-get s.db.tasks ts
  unfolding recover_tasks
  recover_tasks-step [] s own hd hh = refl
  recover_tasks-step (t ∷ ts) s own hd hh =
      let kept = recover_task-step t s own.0 hd hh in
      recover_tasks-step ts (recover_task now run_id t s) own.1 kept.1 kept.2 ∙ rw kept.0 refl

  list_tasks_by_run-own :
      (m : Map PersistedTask)
      → All (λ t. (t.run_id == run_id) ≡ true) (filter (λ t. t.run_id == run_id) (values m))
  list_tasks_by_run-own m = filter-own (values m)
    where
      filter-own :
          (ts : List PersistedTask)
          → All (λ t. (t.run_id == run_id) ≡ true) (filter (λ t. t.run_id == run_id) ts)
      filter-own [] = tt
      filter-own (t ∷ ts) = elim (Bool-cases (t.run_id == run_id)) [
        | inl own ↦ rw own (own, filter-own ts)
        | inr other ↦ rw other (filter-own ts)
      ]

  pub recovered_tasks-get :
      IsTable (λ t. t.task_id) db.tasks
      → (j : String)
      → get (recovered_tasks now run_id db).db.tasks j
        ≡ map_option (recovered now run_id db) (get db.tasks j)
  recovered_tasks-get table j =
      ap (λ m. get m j)
        (recover_tasks-step (list_tasks_by_run run_id db) _
          (order_by-All _ _ _ (list_tasks_by_run-own db.tasks)) refl refl)
      ∙ rewrite_all-get (λ t. t.task_id) (recovered now run_id db) step step-get db.tasks
          (list_tasks_by_run run_id db)
          (order_by-All _ _ _ (filter-All _ _ _ (values-get (λ t. t.task_id) db.tasks table)))
          visits j
    where
      visits :
          (i : String) (x : PersistedTask)
          → get db.tasks i ≡ some x
          → (recovered now run_id db x ≡ x)
            ⊎ (Memᴰ x (list_tasks_by_run run_id db) × (x.task_id ≡ i))
      visits i x found = elim (Bool-cases (x.run_id == run_id)) [
        | inl own ↦ inr (
          order_by-Mem _ x _
              (filter-Mem _ x _ own (values-Mem (λ t. t.task_id) db.tasks i x found)),
          get-key (λ t. t.task_id) db.tasks i x table found,
        )
        | inr other ↦ inl (rw other refl)
      ]
