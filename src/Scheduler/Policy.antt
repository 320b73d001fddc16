-- ===== src/Scheduler/Policy.antt =====
-- Task policies of apps/orchestrator/src/scheduler/TaskScheduler.ts.
use droid_swarm.Prelude.{
  ℕ, ◌+◌, String, Bool, true, false, ◌&&◌, ltb, leb, if◌then◌else◌, ◌<>◌, decimal, length, Option,
  none, some, List,
}
use droid_swarm.Runs.Records.{TaskStatus, PersistedTask}
use droid_swarm.Scheduler.State.{
  SchedulerState, set_task_status, list_dependents, record_budget_limit,
}

pub data ApprovalPolicy : Type 0 where
  auto manual : ApprovalPolicy

pub data PriorityBias : Type 0 where
  time cost balanced : PriorityBias

pub record TaskPolicy : Type 0 where
  pub max_depth : Option ℕ
  pub max_children : Option ℕ
  pub max_tokens : Option ℕ
  pub max_tool_calls : Option ℕ
  pub timeout_ms : Option ℕ
  pub max_parallel_helpers : Option ℕ
  pub max_same_role_helpers : Option ℕ
  pub local_queue_tolerance : Option ℕ
  pub allowed_tools : Option (List String)
  pub approval_policy : Option ApprovalPolicy
  pub cloud_escalation_allowed : Option Bool
  pub priority_bias : Option PriorityBias

-- `a ?? b`
abbrev pub or_default {ℓ} : {A : Type ℓ} → Option A → Option A → Option A
or_default none d = d
or_default (some a) d = some a

-- `resolveTaskPolicy`: what the task says, and the defaults elsewhere
unfoldable pub resolve_task_policy : TaskPolicy → TaskPolicy → TaskPolicy
resolve_task_policy overrides defaults = record {
  max_depth = or_default overrides.max_depth defaults.max_depth;
  max_children = or_default overrides.max_children defaults.max_children;
  max_tokens = or_default overrides.max_tokens defaults.max_tokens;
  max_tool_calls = or_default overrides.max_tool_calls defaults.max_tool_calls;
  timeout_ms = or_default overrides.timeout_ms defaults.timeout_ms;
  max_parallel_helpers = or_default overrides.max_parallel_helpers defaults.max_parallel_helpers;
  max_same_role_helpers = or_default overrides.max_same_role_helpers defaults.max_same_role_helpers;
  local_queue_tolerance = or_default overrides.local_queue_tolerance defaults.local_queue_tolerance;
  allowed_tools = or_default overrides.allowed_tools defaults.allowed_tools;
  approval_policy = or_default overrides.approval_policy defaults.approval_policy;
  cloud_escalation_allowed =
      or_default overrides.cloud_escalation_allowed defaults.cloud_escalation_allowed;
  priority_bias = or_default overrides.priority_bias defaults.priority_bias;
}

-- `getPolicyChildCount`
abbrev pub get_policy_child_count : PersistedTask → SchedulerState → ℕ
get_policy_child_count task s = length (list_dependents task.task_id s)

-- `recordPolicyViolation`
unfoldable pub record_policy_violation :
    String → PersistedTask → String → ℕ → SchedulerState → SchedulerState
record_policy_violation now task detail consumed s =
    set_task_status now task.task_id TaskStatus.waiting_on_human
      (record_budget_limit task.task_id detail consumed s)

abbrev pub is_manual : Option ApprovalPolicy → Bool
is_manual (some manual) = true
is_manual _ = false

abbrev pub at_least : Option ℕ → ℕ → Bool
at_least none n = false
at_least (some limit) n = leb limit n

abbrev pub above : Option ℕ → ℕ → Bool
above none n = false
above (some limit) n = ltb limit n

abbrev pub shown : Option ℕ → String
shown none = "undefined"
shown (some n) = decimal n

-- `enforceTaskPolicy` of a resolved policy for a number of requests, with the depth of the task
-- where the policy asks for it
unfoldable pub enforce_task_policy :
    TaskPolicy → String → ℕ → PersistedTask → ℕ → SchedulerState → SchedulerState × Bool
enforce_task_policy policy now depth task requests s =
    let children = get_policy_child_count task s in
    if at_least policy.max_depth depth
    then (
      record_policy_violation now task
          ("Task depth " <> decimal depth <> " meets policy max depth " <> shown policy.max_depth)
          depth s,
      false,
    )
    else if above policy.max_children (children + requests)
    then (
      record_policy_violation now task
          ("Policy max children "
            <> shown policy.max_children
            <> " exceeded ("
            <> decimal children
            <> " existing + "
            <> decimal requests
            <> " new)")
          (children + requests) s,
      false,
    )
    else if is_manual policy.approval_policy && ltb 0 requests
    then (
      record_policy_violation now task
          "Manual approval policy requires human review before spawning assistants" requests s,
      false,
    )
    else (s, true)
