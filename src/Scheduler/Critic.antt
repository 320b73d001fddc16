-- ===== src/Scheduler/Critic.antt =====
-- What becomes of a task whose artifact a critic has accepted
-- (apps/orchestrator/src/scheduler/TaskScheduler.ts).
use mathlib.Core.List.{Memᴰ}
use droid_swarm.Prelude.{
  ℕ, String, true, false, ◌==◌, if◌then◌else◌, Option, none, some, [], get, put, get_or, ◌≡◌, ◌≢◌,
  refl, sym, ap, subst, ◌∙◌, inl, inr, arith, Bool-cases, eq_iff, eq_refl,
}
use droid_swarm.Prelude.Sets.{has, delete, has-add}
use droid_swarm.Prelude.Rows.{IsTable, map_option, get-key}
use droid_swarm.Audit.Json.{str}
use droid_swarm.Runs.Records.{TaskStatus, Metadata, RunRecord, PersistedTask}
use droid_swarm.Scheduler.State.{
  TaskDependencyRecord, SchedulerConfig, Load, SchedulerState, get_task, set_task_status,
  update_task_metadata, build_and_persist_digest,
}
use droid_swarm.Scheduler.Gate.{is_waiting, can_run}
use droid_swarm.Scheduler.Tables.{
  Tasks, with_status, with_metadata, set_task_status-get, update_task_metadata-Tasks,
  update_task_metadata-get,
}
use droid_swarm.Scheduler.Stages.{snapshot}
use droid_swarm.Scheduler.Groups.{metadata_text, non_empty}
use droid_swarm.Scheduler.Resolve.{resolve_found, resolve_named, resolve_parent_if_ready}
use droid_swarm.Scheduler.Results.{
  verification, WorkerResult, TaskScheduler, record_outcome, flush_pending_checkpoint,
}
use droid_swarm.Scheduler.Handlers.{
  FreshIds, artifact_outcome, artifact_settled, ready_again, parent_at, parent_of, uncriticized,
  artifact_verification_result, handle_artifact_verification_result,
}
use droid_swarm.Scheduler.Flush.{
  SameTables, flush_pending-SameTables, set_task_status-dependencies,
  update_task_metadata-dependencies,
}
use droid_swarm.Scheduler.Refused.{running-refused}

pub parent-cases :
    (s : SchedulerState) (o : Option String) {parent : PersistedTask}
    → parent_at s o ≡ some parent
    → (id : String) × (o ≡ some id) × (get_task id s ≡ some parent)
parent-cases s none h = cc h
parent-cases s (some id) h = (id, refl, h)

module _ (config : SchedulerConfig) (run : RunRecord) (now : String) (ids : FreshIds)
    (task parent : PersistedTask) (result : WorkerResult) (d : TaskScheduler)
    (table : Tasks d.state) (parents : parent_of task d.state ≡ some parent) where
  -- The state after `artifact_accepted`, before the parent is queued
  abbrev flushed : TaskScheduler → TaskScheduler
  flushed e = flush_pending_checkpoint parent (record e {
    tasks_awaiting_critic = delete e.tasks_awaiting_critic parent.task_id;
    artifact_critic_queue =
        uncriticized config run now ids (non_empty (metadata_text "artifact_id" task))
          e.artifact_critic_queue;
    state = build_and_persist_digest parent.task_id result.summary (
        update_task_metadata now parent.task_id
          (put (get_or parent.metadata []) "critic_verified" (str now)) e.state);
  })

  critic_metadata : Metadata
  critic_metadata = put (get_or parent.metadata []) "critic_verified" (str now)

  flushed-tables :
      SameTables (flushed d).state (update_task_metadata now parent.task_id critic_metadata d.state)
  unfolding flush_pending_checkpoint critic_metadata
  flushed-tables = flush_pending-SameTables parent.task_id _ _

  parent_named : get_task parent.task_id d.state ≡ some parent
  parent_named =
      let (id, named, found) = parent-cases d.state (non_empty task.parent_task_id) parents in
      ap (λ k. get_task k d.state) (get-key (λ t. t.task_id) d.state.tasks id parent table found)
      ∙ found

  -- The rows after `artifact_accepted`
  abbrev accepted_state : SchedulerState
  accepted_state = set_task_status now parent.task_id TaskStatus.queued (flushed d).state

  accepted_row :
      (k : String)
      → get_task k accepted_state ≡ (
          if parent.task_id == k
          then some (with_status now TaskStatus.queued (with_metadata now critic_metadata parent))
          else get_task k d.state)
  accepted_row k =
      set_task_status-get now parent.task_id (flushed d).state flushed_table TaskStatus.queued k
      ∙ ap
          (λ o. if parent.task_id == k then map_option (with_status now TaskStatus.queued) o else o)
          (ap (λ m. get m k) flushed-tables.0
            ∙ update_task_metadata-get now parent.task_id d.state table critic_metadata k)
      ∙ elim (Bool-cases (parent.task_id == k)) [
        | inl same ↦
            rw
              (same, ap (get d.state.tasks) (sym ((eq_iff parent.task_id k).0 same)) ∙ parent_named)
              refl
        | inr other ↦ rw other refl
      ]
    where
      flushed_table : Tasks (flushed d).state
      flushed_table =
          subst (IsTable (λ t. t.task_id)) (sym flushed-tables.0)
            (update_task_metadata-Tasks now parent.task_id d.state table critic_metadata)

  accepted-dependencies : accepted_state.dependencies ≡ d.state.dependencies
  accepted-dependencies =
      set_task_status-dependencies now parent.task_id TaskStatus.queued (flushed d).state
      ∙ flushed-tables.1
      ∙ update_task_metadata-dependencies now parent.task_id critic_metadata d.state

  found-idle :
      (s : SchedulerState) (p : PersistedTask)
      → is_waiting p.status ≡ false
      → resolve_found config run now ids.arbiter_id s (some p) ≡ s
  found-idle s p idle = rw idle refl

  resolve-idle :
      (s : SchedulerState) (p : PersistedTask)
      → get_task parent.task_id s ≡ some p
      → is_waiting p.status ≡ false
      → resolve_parent_if_ready config run now ids.arbiter_id task s ≡ s
  unfolding resolve_parent_if_ready
  resolve-idle s p found idle =
      let (id, named, there) = parent-cases d.state (non_empty task.parent_task_id) parents in
      let same = get-key (λ t. t.task_id) d.state.tasks id parent table there in
      ap (resolve_named config run now ids.arbiter_id s) named
      ∙ ap (resolve_found config run now ids.arbiter_id s)
          (ap (λ k. get_task k s) (sym same) ∙ found)
      ∙ found-idle s p idle

  accepted-resolved :
      resolve_parent_if_ready config run now ids.arbiter_id task accepted_state ≡ accepted_state
  accepted-resolved =
      resolve-idle accepted_state
        (with_status now TaskStatus.queued (with_metadata now critic_metadata parent))
        (accepted_row parent.task_id ∙ rw (eq_refl parent.task_id) refl) refl

  -- The row of the parent after the handler
  abbrev queued_parent : PersistedTask
  queued_parent = with_status now TaskStatus.queued (with_metadata now critic_metadata parent)

  accepted-refused :
      (row : PersistedTask) (e : TaskDependencyRecord)
      → Memᴰ e d.state.dependencies
      → e.task_id ≡ parent.task_id
      → parent.task_id ≢ e.depends_on_task_id
      → get_task e.depends_on_task_id d.state ≡ some row
      → row.status ≡ TaskStatus.running
      → (s : SchedulerState) → s.tasks ≡ accepted_state.tasks
      → s.dependencies ≡ accepted_state.dependencies
      → (any_config : SchedulerConfig) (load : Load) (fuel : ℕ) (later : String)
        (t : SchedulerState)
      → can_run any_config load fuel later queued_parent s ≢ some (t, true)
  accepted-refused row e mem from apart there busy s same_tasks same_rows any_config load fuel later
        t =
      running-refused any_config load fuel later queued_parent row s t e
        (subst (Memᴰ e) (sym (same_rows ∙ accepted-dependencies)) mem) from
        (ap (λ m. get m e.depends_on_task_id) same_tasks
          ∙ accepted_row e.depends_on_task_id
          ∙ kept
          ∙ there)
        busy
    where
      kept :
          (if parent.task_id == e.depends_on_task_id
            then some queued_parent
            else get_task e.depends_on_task_id d.state)
          ≡ get_task e.depends_on_task_id d.state
      kept = ground (arith, apart, eq_iff parent.task_id e.depends_on_task_id)

-- A critic accepts an artifact: the task that the artifact is of is queued and stands in the ready
-- queue, but as long as the critic's own task is left running, which nothing in the handler ends,
-- the task is refused, whatever the limits, the budget and the load are.
pub handle_artifact_verification_result-refused :
    (config : SchedulerConfig) (run : RunRecord) (now : String) (ids : FreshIds)
    (task parent row : PersistedTask) (attempt_id agent_name : String) (result : WorkerResult)
    (d : TaskScheduler) (e : TaskDependencyRecord)
    → Tasks d.state
    → parent_of task d.state ≡ some parent
    → result.success ≡ true
    → Memᴰ e d.state.dependencies
    → e.task_id ≡ parent.task_id
    → parent.task_id ≢ e.depends_on_task_id
    → get_task e.depends_on_task_id d.state ≡ some row
    → row.status ≡ TaskStatus.running
    → (waiting : PersistedTask) × (get_task parent.task_id
          (handle_artifact_verification_result config run now ids task attempt_id agent_name result
            d).state
        ≡ some waiting)
      × (waiting.status ≡ TaskStatus.queued)
      × (has
            (handle_artifact_verification_result config run now ids task attempt_id agent_name
              result d).state.ready_queue
            parent.task_id
          ≡ true)
      × ((any_config : SchedulerConfig) (load : Load) (fuel : ℕ) (later : String)
            (t : SchedulerState)
          → can_run any_config load fuel later waiting
              (handle_artifact_verification_result config run now ids task attempt_id agent_name
                result d).state
            ≢ some (t, true))
unfolding handle_artifact_verification_result record_outcome
handle_artifact_verification_result-refused config run now ids task parent row attempt_id agent_name
      result d e table parents good mem from apart there busy =
    (
      queued_parent config run now ids task parent result recorded table parents,
      ap (get_task parent.task_id) outcome
          ∙ accepted_row config run now ids task parent result recorded table parents parent.task_id
          ∙ rw (eq_refl parent.task_id) refl,
      refl,
      ap (λ s. has s.ready_queue parent.task_id) outcome
          ∙ has-add
              (accepted_state config run now ids task parent result recorded table
                parents).ready_queue
              parent.task_id parent.task_id
          ∙ ground (arith, eq_refl parent.task_id),
      accepted-refused config run now ids task parent result recorded table parents row e mem from
          apart there busy _ (ap (λ s. s.tasks) outcome) (ap (λ s. s.dependencies) outcome),
    )
  where
    recorded : TaskScheduler
    recorded = record_outcome parent.task_id attempt_id verification agent_name result d

    outcome :
        (artifact_verification_result config run now ids task attempt_id agent_name result d
          (parent_of task d.state)).state
        ≡ snapshot (
            ready_again config run now ids parent
              (accepted_state config run now ids task parent result recorded table parents))
    outcome =
        ap
          (λ o.
            (artifact_verification_result config run now ids task attempt_id agent_name result d
              o).state)
          parents
        ∙ ap
            (λ b.
              artifact_settled config run now ids task parent
                (artifact_outcome config run now ids task parent result recorded b).state)
            good
        ∙ ap (λ s. snapshot (ready_again config run now ids parent s))
            (accepted-resolved config run now ids task parent result recorded table parents)
