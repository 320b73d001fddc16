-- ===== src/Scheduler/Closing.antt =====
-- The loop of `maybeCollapseParallelGroup` on the table of tasks
-- (apps/orchestrator/src/scheduler/TaskScheduler.ts).
use droid_swarm.Prelude.{
  String, Bool, true, false, ◌&&◌, ◌==◌, if◌then◌else◌, some, List, [], ◌∷◌, any, get, put, get_or,
  ◌≡◌, refl, ◌∙◌, inl, inr, arith, Bool-cases, Option-cases,
}
use droid_swarm.Prelude.Rows.{map_option}
use droid_swarm.Audit.Json.{str}
use droid_swarm.Runs.Records.{TaskStatus, Metadata, PersistedTask}
use droid_swarm.Scheduler.State.{SchedulerState, get_task, set_task_status}
use droid_swarm.Scheduler.Tables.{
  Tasks, with_status, with_metadata, set_task_status-Tasks, set_task_status-get,
  update_task_metadata-Tasks, update_task_metadata-get,
}
use droid_swarm.Scheduler.Groups.{is_unfinished, collapse_one, collapse_all}

resolution : PersistedTask → String → Metadata
resolution sibling winner =
    put
      (put (get_or sibling.metadata []) "parallel_resolution"
        (str "accepted_fastest_verified_result"))
      "resolved_by_task_id" (str winner)

-- The row of an open sibling after the loop's round
closed : String → String → PersistedTask → PersistedTask → PersistedTask
closed now winner sibling t =
    with_metadata now (resolution sibling winner) (with_status now TaskStatus.cancelled t)

module _ (now winner : String) (x : PersistedTask) (s : SchedulerState) (table : Tasks s) where
  collapse_one-Tasks : Tasks (collapse_one now winner x s)
  unfolding collapse_one
  collapse_one-Tasks = elim (Bool-cases (is_unfinished x.status)) [
    | inl still ↦ rw still (
        update_task_metadata-Tasks now x.task_id
          (set_task_status now x.task_id TaskStatus.cancelled s)
          (set_task_status-Tasks now x.task_id s table TaskStatus.cancelled) _)
    | inr over ↦ rw over table
  ]

  collapse_one-get :
      (k : String)
      → get (collapse_one now winner x s).tasks k ≡ (
          if is_unfinished x.status && x.task_id == k
          then map_option (closed now winner x) (get s.tasks k)
          else get s.tasks k)
  unfolding collapse_one closed resolution
  collapse_one-get k = elim (Bool-cases (is_unfinished x.status)) [
    | inl still ↦ rw still (
        update_task_metadata-get now x.task_id
          (set_task_status now x.task_id TaskStatus.cancelled s)
          (set_task_status-Tasks now x.task_id s table TaskStatus.cancelled) (resolution x winner) k
        ∙ rewritten)
    | inr over ↦ rw over refl
  ]
    where
      rewritten :
          (if x.task_id == k
            then map_option
                (with_metadata now (resolution x winner))
                (get (set_task_status now x.task_id TaskStatus.cancelled s).tasks k)
            else get (set_task_status now x.task_id TaskStatus.cancelled s).tasks k)
          ≡ (if x.task_id == k
              then map_option (closed now winner x) (get s.tasks k)
              else get s.tasks k)
      rewritten = elim (Bool-cases (x.task_id == k)) [
        | inl same ↦
            rw (same, set_task_status-get now x.task_id s table TaskStatus.cancelled k, same)
              (elim (Option-cases (get s.tasks k)) [
                | inl gone ↦ rw gone refl
                | inr (t, found) ↦ rw found refl
              ])
        | inr other ↦
            rw (other, set_task_status-get now x.task_id s table TaskStatus.cancelled k, other) refl
      ]

-- A task of the list that is still open and has this id
abbrev pub hits : String → PersistedTask → Bool
hits k x = is_unfinished x.status && x.task_id == k

-- The task with this id is there and cancelled.
unfoldable pub IsCancelled : String → SchedulerState → Type 0
IsCancelled k s = (t : PersistedTask) × (get_task k s ≡ some t) × (t.status ≡ TaskStatus.cancelled)

module _ (now winner k : String) where
  pub collapse_all-kept :
      (xs : List PersistedTask) (s : SchedulerState)
      → Tasks s
      → any (hits k) xs ≡ false
      → get_task k (collapse_all now winner xs s) ≡ get_task k s
  unfolding collapse_all
  collapse_all-kept [] s table none_hits = refl
  collapse_all-kept (x ∷ xs) s table none_hits =
      collapse_all-kept xs (collapse_one now winner x s) (collapse_one-Tasks now winner x s table)
        (ground (arith, none_hits))
      ∙ collapse_one-get now winner x s table k
      ∙ ground (arith, none_hits)

  collapse_one-IsCancelled :
      (x : PersistedTask) (s : SchedulerState)
      → Tasks s
      → IsCancelled k s
      → IsCancelled k (collapse_one now winner x s)
  unfolding IsCancelled closed
  collapse_one-IsCancelled x s table (t, found, ended) =
      elim (Bool-cases (is_unfinished x.status && x.task_id == k)) [
        | inl hit ↦ (
          closed now winner x t,
          collapse_one-get now winner x s table k ∙ rw (hit, found) refl,
          refl,
        )
        | inr other ↦ (t, collapse_one-get now winner x s table k ∙ rw (other, found) refl, ended)
      ]

  collapse_one-hit :
      (x t : PersistedTask) (s : SchedulerState)
      → Tasks s
      → get_task k s ≡ some t
      → hits k x ≡ true
      → IsCancelled k (collapse_one now winner x s)
  unfolding IsCancelled closed
  collapse_one-hit x t s table found hit =
      (closed now winner x t, collapse_one-get now winner x s table k ∙ rw (hit, found) refl, refl)

  collapse_all-IsCancelled :
      (xs : List PersistedTask) (s : SchedulerState)
      → Tasks s
      → IsCancelled k s
      → IsCancelled k (collapse_all now winner xs s)
  unfolding collapse_all
  collapse_all-IsCancelled [] s table ended = ended
  collapse_all-IsCancelled (x ∷ xs) s table ended =
      collapse_all-IsCancelled xs (collapse_one now winner x s)
        (collapse_one-Tasks now winner x s table) (collapse_one-IsCancelled x s table ended)

  pub collapse_all-hit :
      (xs : List PersistedTask) (t : PersistedTask) (s : SchedulerState)
      → Tasks s
      → get_task k s ≡ some t
      → any (hits k) xs ≡ true
      → IsCancelled k (collapse_all now winner xs s)
  unfolding collapse_all
  collapse_all-hit [] t s table found some_hits = ground (arith, some_hits)
  collapse_all-hit (x ∷ xs) t s table found some_hits = elim (Bool-cases (hits k x)) [
    | inl hit ↦
        collapse_all-IsCancelled xs (collapse_one now winner x s)
          (collapse_one-Tasks now winner x s table) (collapse_one-hit x t s table found hit)
    | inr other ↦
        collapse_all-hit xs t (collapse_one now winner x s)
          (collapse_one-Tasks now winner x s table)
          (collapse_one-get now winner x s table k ∙ rw (other, found) refl)
          (ground (arith, some_hits, other))
  ]
