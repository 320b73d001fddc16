-- ===== src/Scheduler/Depth.antt =====
-- `getTaskDepth` ends where no task is among its own ancestors
-- (apps/orchestrator/src/scheduler/TaskScheduler.ts).
use Prim.Native.Nat.{zero, suc}
use droid_swarm.Prelude.{
  ℕ, ◌<◌, ◌≤◌, String, ◌==◌, false, some, get, ◌≡◌, refl, arith, Bool-cases, Option-cases, inl, inr,
}
use droid_swarm.Runs.Records.{PersistedTask}
use droid_swarm.Scheduler.State.{SchedulerState, get_task}
use droid_swarm.Scheduler.Gate.{get_task_depth}

module _ (s : SchedulerState) (rank : String → ℕ) where
  -- The rank of a task's parent is below its own, as where tasks are numbered when they are made.
  abbrev pub Descends : Type 0
  Descends =
      (id parent_id : String) (task : PersistedTask)
      → get_task id s ≡ some task
      → task.parent_task_id ≡ some parent_id
      → rank parent_id < rank id

  depth_step :
      (fuel : ℕ) (id parent_id : String) (task : PersistedTask) {depth : ℕ}
      → get s.tasks id ≡ some task
      → task.parent_task_id ≡ some parent_id
      → (parent_id == "") ≡ false
      → get_task_depth fuel parent_id s ≡ some depth
      → get_task_depth (suc fuel) id s ≡ some (suc depth)
  unfolding get_task_depth
  depth_step fuel id parent_id task found child named deep =
      rw (found, get_task_depth) (rw child (rw (named, deep) refl))

  -- With ranks that fall from child to parent the depth of a task is found with fuel above its
  -- rank, and is at most its rank.
  pub get_task_depth_total :
      Descends
      → (fuel : ℕ) (id : String) → rank id < fuel
      → (depth : ℕ) × (get_task_depth fuel id s ≡ some depth) × (depth ≤ rank id)
  unfolding get_task_depth
  get_task_depth_total down zero id enough = ground (arith, enough)
  get_task_depth_total down (suc fuel) id enough = elim (Option-cases (get s.tasks id)) [
    | inl gone ↦ (0, rw (gone, get_task_depth) refl, omega arith)
    | inr (task, found) ↦ elim (Option-cases task.parent_task_id) [
      | inl root ↦ (0, rw (found, root, get_task_depth) refl, omega arith)
      | inr (parent_id, child) ↦ elim (Bool-cases (parent_id == "")) [
        | inl blank ↦ (0, rw (found, child, blank, get_task_depth) refl, omega arith)
        | inr named ↦
            let lower = down id parent_id task found child in
            let (depth, deep, bounded) =
              get_task_depth_total down fuel parent_id (omega (arith, lower, enough)) in
            (
              suc depth,
              depth_step fuel id parent_id task found child named deep,
              omega (arith, lower, bounded),
            )
      ]
    ]
  ]
