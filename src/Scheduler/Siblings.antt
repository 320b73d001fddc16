-- ===== src/Scheduler/Siblings.antt =====
-- The other tasks of a parallel group (apps/orchestrator/src/scheduler/TaskScheduler.ts).
use mathlib.Core.List.{Memᴰ}
use mathlib.Core.List.Memᴰ
use droid_swarm.Prelude.{
  String, Bool, true, not, ◌==◌, Option, none, some, List, [], ◌∷◌, any, filter, All, ◌≡◌, refl,
  sym, ap, ◌∙◌, inl, inr, arith, Bool-cases, Option-cases,
}
use droid_swarm.Prelude.Rows.{get-key, All-implies}
use droid_swarm.Runs.Records.{PersistedTask}
use droid_swarm.Scheduler.State.{TaskDependencyRecord, SchedulerState, get_task, list_dependencies}
use droid_swarm.Scheduler.Tables.{Tasks}
use droid_swarm.Scheduler.Groups.{dependency_tasks, in_group, get_parallel_group_tasks, siblings_of}

-- What the loop's list holds: the other tasks of the group, as the table has them
abbrev pub IsSibling : SchedulerState → PersistedTask → String → PersistedTask → Type 0
IsSibling s task group x =
    (get_task x.task_id s ≡ some x)
    × (in_group group x ≡ true)
    × (not (x.task_id == task.task_id) ≡ true)

dependency_tasks-get :
    (ds : List TaskDependencyRecord) (s : SchedulerState)
    → Tasks s
    → All (λ x. get_task x.task_id s ≡ some x) (dependency_tasks ds s)
dependency_tasks-get [] s table = tt
dependency_tasks-get (d ∷ ds) s table = elim (Option-cases (get_task d.depends_on_task_id s)) [
  | inl gone ↦ rw gone (dependency_tasks-get ds s table)
  | inr (x, found) ↦ rw found (
    ap (λ k. get_task k s) (get-key (λ t. t.task_id) s.tasks d.depends_on_task_id x table found)
        ∙ found,
    dependency_tasks-get ds s table,
  )
]

-- A filtered list keeps what holds of all, and its elements pass the test.
filter-both :
    (P : PersistedTask → Type 0) (p : PersistedTask → Bool) (xs : List PersistedTask)
    → All P xs
    → All (λ x. P x × (p x ≡ true)) (filter p xs)
filter-both P p [] h = tt
filter-both P p (x ∷ xs) h = elim (Bool-cases (p x)) [
  | inl passes ↦ rw passes ((h.0, passes), filter-both P p xs h.1)
  | inr fails ↦ rw fails (filter-both P p xs h.1)
]

pub siblings_of-IsSibling :
    (task : PersistedTask) (group : String) (s : SchedulerState)
    → Tasks s
    → All (IsSibling s task group) (siblings_of task group s)
unfolding get_parallel_group_tasks
siblings_of-IsSibling task group s table =
    All-implies _ (λ x h. (h.0.0, h.0.1, h.1)) (siblings_of task group s)
      (filter-both _ (λ sibling. not (sibling.task_id == task.task_id))
        (get_parallel_group_tasks task.parent_task_id group s) (in_groups task.parent_task_id))
  where
    in_groups :
        (parent_id : Option String)
        → All
            (λ x. (get_task x.task_id s ≡ some x) × (in_group group x ≡ true))
            (get_parallel_group_tasks parent_id group s)
    in_groups none = tt
    in_groups (some parent_id) = elim (Bool-cases (parent_id == "")) [
      | inl empty ↦ rw empty tt
      | inr named ↦ rw named (
          filter-both _ (in_group group) (dependency_tasks (list_dependencies parent_id s) s)
            (dependency_tasks-get (list_dependencies parent_id s) s table))
    ]

-- An element that passes is there when `any` says so, and only then.
pub any-Mem :
    (p : PersistedTask → Bool) (x : PersistedTask) (xs : List PersistedTask)
    → Memᴰ x xs
    → p x ≡ true
    → any p xs ≡ true
any-Mem p x [] mem passes = elim (Memᴰ.not-nil mem) [ ]
any-Mem p x (y ∷ ys) mem passes = elim (Memᴰ.cases_cons mem) [
  | inl same ↦ rw (ap p (sym same) ∙ passes) refl
  | inr later ↦ ground (arith, any-Mem p x ys later passes)
]

pub any-witness :
    (P : PersistedTask → Type 0) (p : PersistedTask → Bool) (xs : List PersistedTask)
    → All P xs
    → any p xs ≡ true
    → (x : PersistedTask) × P x × (p x ≡ true)
any-witness P p [] h found = ground (arith, found)
any-witness P p (x ∷ xs) h found = elim (Bool-cases (p x)) [
  | inl passes ↦ (x, h.0, passes)
  | inr fails ↦ any-witness P p xs h.1 (ground (arith, found, fails))
]
