-- ===== src/Scheduler/Parallel.antt =====
-- How many tasks a request for helpers becomes (apps/orchestrator/src/scheduler/TaskScheduler.ts).
use Prim.Native.Nat.{suc, zero, min, max}
use droid_swarm.Prelude.{
  ℕ, String, Bool, true, false, ◌||◌, leb, ltb, nat_eq, if◌then◌else◌, ◌<>◌, decimal, length, take,
  Option, none, some, List, [], ◌∷◌, ◌++◌, Map, get_or,
}
use droid_swarm.Router.Hints.{some_hint}
use droid_swarm.Runs.Records.{Priority, PersistedTask}
use droid_swarm.Routing.Roles.{
  SwarmRole, researcher, repo_scanner, reviewer, summarizer, checkpoint_compressor, role_id,
  role_catalog, normalize_swarm_role,
}
use droid_swarm.Scheduler.Policy.{TaskPolicy}
use droid_swarm.Scheduler.Groups.{metadata_text, group_by}

-- What the scheduler reads of a `TaskStateDigest`
pub record TaskDigest : Type 0 where
  pub open_questions : List String
  pub active_risks : List String
  pub artifact_index : List String
  pub current_plan : List String

pub record SpawnRequest : Type 0 where
  pub role : String
  pub reason : String
  pub instructions : String

pub record ScheduledSpawnRequest : Type 0 where
  pub role : String
  pub reason : String
  pub instructions : String
  pub canonical_role : String
  pub parallel_group_id : Option String
  pub parallel_index : Option ℕ
  pub parallel_total : Option ℕ

-- The counts of the latest digest, 0 where there is none
pub record Counts : Type 0 where
  pub open_questions : ℕ
  pub active_risks : ℕ
  pub artifact_count : ℕ
  pub plan_size : ℕ

abbrev pub counts_of : Option TaskDigest → Counts
counts_of none = record { open_questions = 0; active_risks = 0; artifact_count = 0; plan_size = 0 }
counts_of (some digest) = record {
  open_questions = length digest.open_questions;
  active_risks = length digest.active_risks;
  artifact_count = length digest.artifact_index;
  plan_size = length digest.current_plan;
}

abbrev pub is_pressing : Priority → Bool
is_pressing Priority.high = true
is_pressing Priority.urgent = true
is_pressing _ = false

abbrev pub parallel_scanners : ℕ → String → ℕ
parallel_scanners artifact_count description =
    if leb 8 artifact_count
      || some_hint ("monorepo" ∷ "workspace" ∷ "packages" ∷ "large repo" ∷ []) description
    then 3
    else if leb 4 artifact_count || some_hint ("repo" ∷ "scan" ∷ "codebase" ∷ []) description
    then 2
    else 1

abbrev pub parallel_summarizers : Counts → ℕ
parallel_summarizers counts =
    if leb 6 counts.artifact_count || leb 5 counts.plan_size || leb 4 counts.open_questions
    then 2
    else 1

-- `desiredParallelCount`
unfoldable pub desired_parallel_count : PersistedTask → SwarmRole → Counts → ℕ
desired_parallel_count task researcher counts =
    if leb 6 counts.open_questions then 3 else if leb 3 counts.open_questions then 2 else 1
desired_parallel_count task repo_scanner counts =
    parallel_scanners counts.artifact_count (get_or (metadata_text "description" task) "")
desired_parallel_count task reviewer counts =
    if leb 2 counts.active_risks || is_pressing task.priority then 2 else 1
desired_parallel_count task summarizer counts = parallel_summarizers counts
desired_parallel_count task checkpoint_compressor counts = parallel_summarizers counts
desired_parallel_count task _ counts = 1

abbrev pub desired_count : PersistedTask → SwarmRole → Counts → ℕ
desired_count task role counts =
    if (role_catalog role).allow_parallel_instances
    then desired_parallel_count task role counts
    else 1

-- `limit != null ? Math.min(n, limit) : n`
abbrev pub capped : Option ℕ → ℕ → ℕ
capped none n = n
capped (some limit) n = min n limit

-- `cappedTotalCount` of a group of requests
abbrev pub total_count : Option ℕ → ℕ → ℕ → ℕ
total_count limit size desired = capped limit (
    if nat_eq size 1
    then desired
    else max 1 (min (if ltb 0 size then size else 1) (capped limit desired)))

-- `group[Math.min(index, group.length - 1)]` of a group that starts with the request
abbrev pub template : SpawnRequest → List SpawnRequest → ℕ → SpawnRequest
template request [] index = request
template request (next ∷ rest) zero = request
template request (next ∷ rest) (suc index) = template next rest index

-- One task of a group of `total`, at an index from 0
abbrev pub instance_of : String → String → ℕ → ℕ → SpawnRequest → ScheduledSpawnRequest
instance_of group_id role total index request =
    if ltb 1 total
    then record {
      role = request.role;
      reason =
          request.reason <> " [parallel " <> decimal (suc index) <> "/" <> decimal total <> "]";
      instructions =
          request.instructions
          <> "\n\nParallel focus "
          <> decimal (suc index)
          <> "/"
          <> decimal total
          <> ": produce an independent "
          <> role
          <> " output and avoid copying sibling reasoning.";
      canonical_role = role;
      parallel_group_id = some group_id;
      parallel_index = some (suc index);
      parallel_total = some total;
    }
    else record {
      role = request.role;
      reason = request.reason;
      instructions = request.instructions;
      canonical_role = role;
      parallel_group_id = none;
      parallel_index = none;
      parallel_total = none;
    }

-- The loop over the indices, from `index` on, `left` of them
abbrev pub instances :
    String → String → ℕ → SpawnRequest → List SpawnRequest → ℕ → ℕ → List ScheduledSpawnRequest
instances group_id role total request rest index zero = []
instances group_id role total request rest index (suc left) =
    instance_of group_id role total index (template request rest index)
    ∷ instances group_id role total request rest (suc index) left

module _ (policy : TaskPolicy) (task : PersistedTask) (counts : Counts)
    (random_id : String → String) where
  abbrev pub group_total : SwarmRole → ℕ → ℕ
  group_total role size =
      total_count policy.max_same_role_helpers size (desired_count task role counts)

  -- A group as `expandParallelRequests` takes it from its map, by its role; the definition of
  -- a role and `desiredParallelCount` read the text of the role, which `normalizeSwarmRole` gave.
  abbrev pub expand_group : String → List SpawnRequest → List ScheduledSpawnRequest
  expand_group role [] = []
  expand_group role (request ∷ rest) =
      let total = group_total (normalize_swarm_role role) (length (request ∷ rest)) in
      instances (random_id role) role total request rest 0 total

  abbrev pub expand_groups : Map (List SpawnRequest) → List ScheduledSpawnRequest
  expand_groups [] = []
  expand_groups (entry ∷ groups) = expand_group entry.0 entry.1 ++ expand_groups groups

  -- `expandParallelRequests`, with the limit `schedulerMaxFanOut`
  unfoldable pub expand_parallel_requests : ℕ → List SpawnRequest → List ScheduledSpawnRequest
  expand_parallel_requests fan_out requests =
      take (max 1 (min fan_out (get_or policy.max_parallel_helpers fan_out))) (
        expand_groups
          (group_by (λ request. some (role_id (normalize_swarm_role request.role))) [] requests))
