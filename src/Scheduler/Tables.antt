-- ===== src/Scheduler/Tables.antt =====
-- `setTaskStatus` and `updateTaskMetadata` on the table of tasks
-- (apps/orchestrator/src/persistence/service.ts).
use droid_swarm.Prelude.{
  String, ◌==◌, if◌then◌else◌, none, some, get, put, get-put, ◌≡◌, refl, sym, ap, subst, ◌∙◌, inl,
  inr, Option-cases, Bool-cases, eq_iff,
}
use droid_swarm.Prelude.Rows.{IsTable, put-IsTable, get-key, map_option}
use droid_swarm.Runs.Records.{PersistedTask, TaskStatus, Metadata}
use droid_swarm.Scheduler.State.{SchedulerState, set_task_status, update_task_metadata}

-- The table of tasks, keyed by their ids
abbrev pub Tasks : SchedulerState → Type 0
Tasks s = IsTable (λ t. t.task_id) s.tasks

module _ (now id : String) (status : TaskStatus) (s : SchedulerState) where
  pub set_missing : get s.tasks id ≡ none → set_task_status now id status s ≡ s
  unfolding set_task_status
  set_missing gone = rw (gone, set_task_status) refl

  pub set_found :
      (t : PersistedTask)
      → get s.tasks id ≡ some t
      → set_task_status now id status s ≡ record s {
        tasks = put s.tasks t.task_id (record t { status = status; updated_at = now });
      }
  unfolding set_task_status
  set_found t found = rw (found, set_task_status) refl

module _ (now id : String) (metadata : Metadata) (s : SchedulerState) where
  update_missing : get s.tasks id ≡ none → update_task_metadata now id metadata s ≡ s
  unfolding update_task_metadata
  update_missing gone = rw (gone, update_task_metadata) refl

  update_found :
      (t : PersistedTask)
      → get s.tasks id ≡ some t
      → update_task_metadata now id metadata s ≡ record s {
        tasks = put s.tasks t.task_id (record t { metadata = some metadata; updated_at = now });
      }
  unfolding update_task_metadata
  update_found t found = rw (found, update_task_metadata) refl

-- The row that `setTaskStatus` writes, and the row that `updateTaskMetadata` writes
abbrev pub with_status : String → TaskStatus → PersistedTask → PersistedTask
with_status now status t = record t { status = status; updated_at = now }

abbrev pub with_metadata : String → Metadata → PersistedTask → PersistedTask
with_metadata now metadata t = record t { metadata = some metadata; updated_at = now }

-- An update of the row of a task, by a function on the state that is known where the row is there
-- and where it is not
module _ (id : String) (change : PersistedTask → PersistedTask) (s after : SchedulerState)
    (keeps : (t : PersistedTask) → (change t).task_id ≡ t.task_id)
    (missing : get s.tasks id ≡ none → after.tasks ≡ s.tasks)
    (there : (t : PersistedTask)
      → get s.tasks id ≡ some t
      → after.tasks ≡ put s.tasks t.task_id (change t))
    (table : Tasks s) where
  change-Tasks : Tasks after
  change-Tasks = elim (Option-cases (get s.tasks id)) [
    | inl gone ↦ subst (IsTable (λ t. t.task_id)) (sym (missing gone)) table
    | inr (t, found) ↦
        subst (IsTable (λ t. t.task_id))
          (sym (there t found ∙ ap (λ k. put s.tasks k (change t)) (sym (keeps t))))
          (put-IsTable (λ t. t.task_id) s.tasks (change t) table)
  ]

  change-get :
      (k : String)
      → get after.tasks k ≡ (if id == k then map_option change (get s.tasks k) else get s.tasks k)
  change-get k = elim (Option-cases (get s.tasks id)) [
    | inl gone ↦ ap (λ m. get m k) (missing gone) ∙ elim (Bool-cases (id == k)) [
      | inl same ↦
          let here = ap (get s.tasks) (sym ((eq_iff id k).0 same)) ∙ gone in rw (same, here) refl
      | inr other ↦ rw other refl
    ]
    | inr (t, found) ↦
        ap (λ m. get m k) (there t found)
        ∙ get-put s.tasks t.task_id k (change t)
        ∙ ap (λ i. if i == k then some (change t) else get s.tasks k)
            (get-key (λ t. t.task_id) s.tasks id t table found)
        ∙ elim (Bool-cases (id == k)) [
          | inl same ↦
              let here = ap (get s.tasks) (sym ((eq_iff id k).0 same)) ∙ found in
              rw (same, here) refl
          | inr other ↦ rw other refl
        ]
  ]

module _ (now id : String) (s : SchedulerState) (table : Tasks s) where
  module _ (status : TaskStatus) where
    pub set_task_status-Tasks : Tasks (set_task_status now id status s)
    set_task_status-Tasks =
        change-Tasks id (with_status now status) s (set_task_status now id status s) (λ t. refl)
          (λ gone. ap (λ u. u.tasks) (set_missing now id status s gone))
          (λ t found. ap (λ u. u.tasks) (set_found now id status s t found)) table

    pub set_task_status-get :
        (k : String)
        → get (set_task_status now id status s).tasks k
          ≡ (if id == k then map_option (with_status now status) (get s.tasks k) else get s.tasks k)
    set_task_status-get =
        change-get id (with_status now status) s (set_task_status now id status s) (λ t. refl)
          (λ gone. ap (λ u. u.tasks) (set_missing now id status s gone))
          (λ t found. ap (λ u. u.tasks) (set_found now id status s t found)) table

  module _ (metadata : Metadata) where
    pub update_task_metadata-Tasks : Tasks (update_task_metadata now id metadata s)
    update_task_metadata-Tasks =
        change-Tasks id (with_metadata now metadata) s (update_task_metadata now id metadata s)
          (λ t. refl) (λ gone. ap (λ u. u.tasks) (update_missing now id metadata s gone))
          (λ t found. ap (λ u. u.tasks) (update_found now id metadata s t found)) table

    pub update_task_metadata-get :
        (k : String)
        → get (update_task_metadata now id metadata s).tasks k ≡ (
            if id == k
            then map_option (with_metadata now metadata) (get s.tasks k)
            else get s.tasks k)
    update_task_metadata-get =
        change-get id (with_metadata now metadata) s (update_task_metadata now id metadata s)
          (λ t. refl) (λ gone. ap (λ u. u.tasks) (update_missing now id metadata s gone))
          (λ t found. ap (λ u. u.tasks) (update_found now id metadata s t found)) table
