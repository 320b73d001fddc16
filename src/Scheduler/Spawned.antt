-- ===== src/Scheduler/Spawned.antt =====
-- Bounds on the tasks that requests for helpers become
-- (apps/orchestrator/src/scheduler/TaskScheduler.ts).
use Prim.Native.Nat.{suc, zero, min, max}
use droid_swarm.Prelude.{
  ℕ, ◌+◌, ◌≤◌, String, Bool, true, ◌==◌, if◌then◌else◌, length, length-take, take, count, Option,
  none, some, is_some, List, [], ◌∷◌, ◌++◌, Map, get, put, get-put, get_or, ◌≡◌, refl, ap, inl, inr,
  arith, Bool-cases, eq_iff,
}
use droid_swarm.Runs.Records.{PersistedTask}
use droid_swarm.Routing.Roles.{
  SwarmRole, planner, researcher, repo_scanner, summarizer, reviewer, verifier,
  checkpoint_compressor, implementation_helper, bugfix_helper, apple_specialist, arbiter, role_id,
  normalize_swarm_role,
}
use droid_swarm.Scheduler.Policy.{TaskPolicy}
use droid_swarm.Scheduler.Groups.{group_by}
use droid_swarm.Scheduler.Parallel.{
  SpawnRequest, ScheduledSpawnRequest, Counts, desired_parallel_count, desired_count, capped,
  total_count, template, instance_of, instances, group_total, expand_group, expand_groups,
  expand_parallel_requests,
}

desired_count-positive :
    (task : PersistedTask) (role : SwarmRole) (counts : Counts) → 1 ≤ desired_count task role counts
unfolding desired_parallel_count
desired_count-positive task planner counts = omega arith
desired_count-positive task researcher counts = ground arith
desired_count-positive task repo_scanner counts = ground arith
desired_count-positive task summarizer counts = ground arith
desired_count-positive task reviewer counts = ground arith
desired_count-positive task verifier counts = omega arith
desired_count-positive task checkpoint_compressor counts = ground arith
desired_count-positive task implementation_helper counts = omega arith
desired_count-positive task bugfix_helper counts = omega arith
desired_count-positive task apple_specialist counts = omega arith
desired_count-positive task arbiter counts = omega arith

total_count-le :
    (limit : Option ℕ) (size desired : ℕ)
    → 1 ≤ desired
    → total_count limit size desired ≤ capped limit desired
total_count-le none size desired positive = ground arith
total_count-le (some limit) size desired positive = ground arith

-- No key of the map stands twice.
IsMap : Map (List SpawnRequest) → Type 0
IsMap [] = Unit
IsMap ((k, v) ∷ m) = (get m k ≡ none) × IsMap m

put-IsMap :
    (m : Map (List SpawnRequest)) (k : String) (v : List SpawnRequest) → IsMap m → IsMap (put m k v)
unfolding IsMap get put
put-IsMap [] k v h = (refl, tt)
put-IsMap ((j, w) ∷ m) k v h = elim (Bool-cases (j == k)) [
  | inl same ↦ rw same h
  | inr other ↦
      rw other
        (ground (arith, other, h, get-put m k j v, eq_iff j k, eq_iff k j), put-IsMap m k v h.1)
]

group_by-IsMap :
    (key : SpawnRequest → String) (m : Map (List SpawnRequest)) (xs : List SpawnRequest)
    → IsMap m
    → IsMap (group_by (λ x. some (key x)) m xs)
unfolding group_by
group_by-IsMap key m [] h = h
group_by-IsMap key m (x ∷ xs) h =
    group_by-IsMap key (put m (key x) (get_or (get m (key x)) [] ++ (x ∷ []))) xs
      (put-IsMap m (key x) (get_or (get m (key x)) [] ++ (x ∷ [])) h)

abbrev in_role : String → ScheduledSpawnRequest → Bool
in_role role x = x.canonical_role == role

count-append :
    (p : ScheduledSpawnRequest → Bool) (xs ys : List ScheduledSpawnRequest)
    → count p (xs ++ ys) ≡ count p xs + count p ys
count-append p [] ys = omega arith
count-append p (x ∷ xs) ys = ground (arith, count-append p xs ys)

count-take-le :
    (p : ScheduledSpawnRequest → Bool) (n : ℕ) (xs : List ScheduledSpawnRequest)
    → count p (take n xs) ≤ count p xs
count-take-le p zero xs = omega arith
count-take-le p (suc n) [] = omega arith
count-take-le p (suc n) (x ∷ xs) = ground (arith, count-take-le p n xs)

instance_of-role :
    (group_id role : String) (total index : ℕ) (request : SpawnRequest)
    → (instance_of group_id role total index request).canonical_role ≡ role
instance_of-role group_id role total index request = ground arith

count-instances :
    (group_id role wanted : String) (total : ℕ) (request : SpawnRequest) (rest : List SpawnRequest)
    (index left : ℕ)
    → count (in_role wanted) (instances group_id role total request rest index left)
      ≡ (if role == wanted then left else 0)
count-instances group_id role wanted total request rest index zero = ground arith
count-instances group_id role wanted total request rest index (suc left) = ground (
  arith,
  ap (λ r. r == wanted) (instance_of-role group_id role total index (template request rest index)),
  count-instances group_id role wanted total request rest (suc index) left,
)

module _ (policy : TaskPolicy) (task : PersistedTask) (counts : Counts)
    (random_id : String → String) where
  count-expand_group :
      (role wanted : String) (group : List SpawnRequest)
      → count (in_role wanted) (expand_group policy task counts random_id role group) ≤ (
          if role == wanted
          then capped policy.max_same_role_helpers
              (desired_count task (normalize_swarm_role wanted) counts)
          else 0)
  count-expand_group role wanted [] = omega arith
  count-expand_group role wanted (request ∷ rest) =
      let total =
        group_total policy task counts random_id (normalize_swarm_role role)
          (length (request ∷ rest)) in
      ground (
        arith,
        count-instances (random_id role) role wanted total request rest 0 total,
        total_count-le policy.max_same_role_helpers (length (request ∷ rest))
            (desired_count task (normalize_swarm_role role) counts)
            (desired_count-positive task (normalize_swarm_role role) counts),
        same_desired,
      )
    where
      same_desired :
          (role == wanted) ≡ true
          → capped policy.max_same_role_helpers
              (desired_count task (normalize_swarm_role role) counts)
            ≡ capped policy.max_same_role_helpers
                (desired_count task (normalize_swarm_role wanted) counts)
      same_desired same =
          ap
            (λ r.
              capped policy.max_same_role_helpers
                (desired_count task (normalize_swarm_role r) counts))
            ((eq_iff role wanted).0 same)

  count-expand_groups :
      (groups : Map (List SpawnRequest)) (wanted : String)
      → IsMap groups
      → count (in_role wanted) (expand_groups policy task counts random_id groups) ≤ (
          if is_some (get groups wanted)
          then capped policy.max_same_role_helpers
              (desired_count task (normalize_swarm_role wanted) counts)
          else 0)
  unfolding get IsMap
  count-expand_groups [] wanted h = omega arith
  count-expand_groups ((role, group) ∷ groups) wanted h = ground (
    arith,
    count-append (in_role wanted) (expand_group policy task counts random_id role group)
        (expand_groups policy task counts random_id groups),
    count-expand_group role wanted group,
    count-expand_groups groups wanted h.1,
    h.0,
    eq_iff role wanted,
  )

-- Whatever helpers are requested, the tasks that the requests become are within the fan-out of the
-- scheduler and the policy's number of parallel helpers, one always being allowed; and no role gets
-- more of them than `desiredParallelCount` wants for it, and than the policy allows in one role.
pub expand_parallel_requests-le :
    (policy : TaskPolicy) (task : PersistedTask) (counts : Counts) (random_id : String → String)
    (fan_out : ℕ) (requests : List SpawnRequest) (role : String)
    → (length (expand_parallel_requests policy task counts random_id fan_out requests)
        ≤ max 1 (min fan_out (get_or policy.max_parallel_helpers fan_out)))
      × (count
            (λ x. x.canonical_role == role)
            (expand_parallel_requests policy task counts random_id fan_out requests)
          ≤ capped policy.max_same_role_helpers
              (desired_count task (normalize_swarm_role role) counts))
unfolding expand_parallel_requests IsMap
expand_parallel_requests-le policy task counts random_id fan_out requests role =
    let groups =
      group_by (λ request. some (role_id (normalize_swarm_role request.role))) [] requests in
    let expanded = expand_groups policy task counts random_id groups in
    let most = max 1 (min fan_out (get_or policy.max_parallel_helpers fan_out)) in
    (
      omega (arith, length-take most expanded),
      ground (
        arith,
        count-take-le (in_role role) most expanded,
        count-expand_groups policy task counts random_id groups role (
            group_by-IsMap (λ request. role_id (normalize_swarm_role request.role)) [] requests tt),
      ),
    )
