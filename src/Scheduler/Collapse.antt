-- ===== src/Scheduler/Collapse.antt =====
-- What the fastest result of a parallel group does to the other tasks
-- (apps/orchestrator/src/scheduler/TaskScheduler.ts).
use mathlib.Core.List.{Memᴰ}
use droid_swarm.Prelude.{
  String, Bool, true, false, not, ◌==◌, some, List, [], ◌∷◌, any, All, ◌≡◌, refl, sym, ap, subst,
  ◌∙◌, ◌⊎◌, inl, inr, arith, Bool-cases, Option-cases, eq_iff, eq_refl,
}
use droid_swarm.Prelude.Rows.{members}
use droid_swarm.Runs.Records.{TaskStatus, PersistedTask}
use droid_swarm.Supervisor.Agents.{Supervisor}
use droid_swarm.Scheduler.State.{SchedulerState, get_task}
use droid_swarm.Scheduler.Tables.{Tasks}
use droid_swarm.Scheduler.Groups.{
  metadata_text, non_empty, in_group, is_unfinished, collapse_all, has_failed, may_collapse,
  siblings_of, collapse_group, maybe_collapse_parallel_group,
}
use droid_swarm.Scheduler.Closing.{hits, IsCancelled, collapse_all-kept, collapse_all-hit}
use droid_swarm.Scheduler.Siblings.{IsSibling, siblings_of-IsSibling, any-Mem, any-witness}

-- A task that is cancelled since another task of its group was faster
abbrev pub IsOvertaken : PersistedTask → String → PersistedTask → PersistedTask → Type 0
IsOvertaken task group t after =
    (after.status ≡ TaskStatus.cancelled)
    × (is_unfinished t.status ≡ true)
    × (in_group group t ≡ true)
    × (not (t.task_id == task.task_id) ≡ true)

module _ (now : String) (task : PersistedTask) (group : String) (s : SchedulerState)
    (table : Tasks s) where
  abbrev collapsed : SchedulerState
  collapsed = collapse_all now task.task_id (siblings_of task group s) s

  overtaken :
      (x : PersistedTask) (k : String) (t : PersistedTask)
      → IsSibling s task group x
      → hits k x ≡ true
      → get_task k s ≡ some t
      → (is_unfinished t.status ≡ true)
        × (in_group group t ≡ true)
        × (not (t.task_id == task.task_id) ≡ true)
  overtaken x k t sibling passes found =
      subst
        (λ y.
          (is_unfinished y.status ≡ true)
          × (in_group group y ≡ true)
          × (not (y.task_id == task.task_id) ≡ true))
        same_row (ground (arith, passes), sibling.1, sibling.2)
    where
      same_id : x.task_id ≡ k
      same_id = ground (arith, passes, eq_iff x.task_id k)

      same_row : x ≡ t
      same_row = cc (sym sibling.0 ∙ ap (λ i. get_task i s) same_id ∙ found)

  collapsed-row :
      (k : String) (t : PersistedTask)
      → get_task k s ≡ some t
      → (after : PersistedTask) × (get_task k collapsed ≡ some after)
        × ((after ≡ t) ⊎ IsOvertaken task group t after)
  unfolding IsCancelled
  collapsed-row k t found = elim (Bool-cases (any (hits k) (siblings_of task group s))) [
    | inr untouched ↦ (
      t,
      collapse_all-kept now task.task_id k (siblings_of task group s) s table untouched ∙ found,
      inl refl,
    )
    | inl hit ↦
        let (after, there, ended) =
          collapse_all-hit now task.task_id k (siblings_of task group s) t s table found hit in
        let (x, sibling, passes) =
          any-witness (IsSibling s task group) (hits k) (siblings_of task group s)
            (siblings_of-IsSibling task group s table) hit in
        let (still, member, other) = overtaken x k t sibling passes found in
        (after, there, inr (ended, still, member, other))
  ]

  collapsed-closed :
      (x : PersistedTask)
      → Memᴰ x (siblings_of task group s)
      → IsSibling s task group x
      → (after : PersistedTask) × (get_task x.task_id collapsed ≡ some after)
        × (is_unfinished after.status ≡ false)
  unfolding IsCancelled
  collapsed-closed x mem sibling = elim (Bool-cases (is_unfinished x.status)) [
    | inl still ↦
        let (after, there, ended) =
          collapse_all-hit now task.task_id x.task_id (siblings_of task group s) x s table sibling.0
            (any-Mem (hits x.task_id) x (siblings_of task group s) mem
              (rw (still, eq_refl x.task_id) refl)) in
        (after, there, ap is_unfinished ended)
    | inr over ↦
        let (after, there, h) = collapsed-row x.task_id x sibling.0 in
        (
          after,
          there,
          elim h [
            | inl same ↦ ap (λ y. is_unfinished y.status) same ∙ over
            | inr overtaken ↦ ap is_unfinished overtaken.0
          ],
        )
  ]

-- `maybeCollapseParallelGroup` keeps every row of a table of tasks, or cancels it: the latter only
-- after a success, in a role that may work in parallel and does not judge, and only for another task
-- of the same group that is queued, planned or running and of a group without a recorded failure.
pub maybe_collapse_parallel_group-IsOvertaken :
    (now : String) (task : PersistedTask) (success : Bool) (s : SchedulerState)
    (supervisor : Supervisor) (k : String) (t : PersistedTask)
    → Tasks s
    → get_task k s ≡ some t
    → (after : PersistedTask) × (get_task k
          (maybe_collapse_parallel_group now task success s supervisor).0
        ≡ some after)
      × ((after ≡ t)
          ⊎ ((group : String) × (non_empty (metadata_text "parallel_group" task) ≡ some group)
              × (may_collapse task success ≡ true)
              × (any has_failed (siblings_of task group s) ≡ false)
              × IsOvertaken task group t after))
unfolding maybe_collapse_parallel_group
maybe_collapse_parallel_group-IsOvertaken now task success s supervisor k t table found =
    elim (Option-cases (non_empty (metadata_text "parallel_group" task))) [
      | inl alone ↦ (
        t,
        ap (λ o. get_task k (collapse_group now task success s supervisor o).0) alone ∙ found,
        inl refl,
      )
      | inr (group, grouped) ↦
          let (after, there, h) = in_one group in
          (
            after,
            ap (λ o. get_task k (collapse_group now task success s supervisor o).0) grouped ∙ there,
            elim h [ inl same ↦ inl same | inr o ↦ inr (group, grouped, o.0, o.1, o.2) ],
          )
    ]
  where
    in_one :
        (group : String)
        → (after : PersistedTask) × (get_task k
              (collapse_group now task success s supervisor (some group)).0
            ≡ some after)
          × ((after ≡ t)
              ⊎ ((may_collapse task success ≡ true)
                  × (any has_failed (siblings_of task group s) ≡ false)
                  × IsOvertaken task group t after))
    in_one group = elim (Bool-cases (may_collapse task success)) [
      | inr barred ↦ (t, rw barred found, inl refl)
      | inl may ↦ elim (Bool-cases (any has_failed (siblings_of task group s))) [
        | inl failed ↦ (t, rw (may, failed) found, inl refl)
        | inr calm ↦
            let (after, there, h) = collapsed-row now task group s table k t found in
            (
              after,
              rw (may, calm) there,
              elim h [ inl same ↦ inl same | inr overtaken_now ↦ inr (may, calm, overtaken_now) ],
            )
      ]
    ]

-- Where a success of a task in a group may end the group's other tasks, and none of these has failed,
-- no other task of the group is queued, planned or running after it.
maybe_collapse_parallel_group-closed :
    (now : String) (task : PersistedTask) (success : Bool) (group : String) (s : SchedulerState)
    (supervisor : Supervisor)
    → Tasks s
    → non_empty (metadata_text "parallel_group" task) ≡ some group
    → may_collapse task success ≡ true
    → any has_failed (siblings_of task group s) ≡ false
    → All
        (λ x.
          (after : PersistedTask) × (get_task x.task_id
              (maybe_collapse_parallel_group now task success s supervisor).0
            ≡ some after)
          × (is_unfinished after.status ≡ false))
        (siblings_of task group s)
unfolding maybe_collapse_parallel_group
maybe_collapse_parallel_group-closed now task success group s supervisor table grouped may calm =
    rw (grouped, may, calm)
      (all_closed (siblings_of task group s) (members (siblings_of task group s))
        (siblings_of-IsSibling task group s table))
  where
    all_closed :
        (xs : List PersistedTask)
        → All (λ x. Memᴰ x (siblings_of task group s)) xs
        → All (IsSibling s task group) xs
        → All
            (λ x.
              (after : PersistedTask) × (get_task x.task_id (collapsed now task group s table)
                ≡ some after)
              × (is_unfinished after.status ≡ false))
            xs
    all_closed [] m h = tt
    all_closed (x ∷ xs) m h =
        (collapsed-closed now task group s table x m.0 h.0, all_closed xs m.1 h.1)
