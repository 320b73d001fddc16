-- ===== src/Scheduler/Usage.antt =====
-- `applyUsageConstraints` of apps/orchestrator/src/scheduler/TaskScheduler.ts, and what
-- `handleAgentResult` writes before it looks at the stage of the task.
use Prim.Native.Char.{code}
use droid_swarm.Prelude.{
  ℕ, ◌+◌, ◌-◌, ◌*◌, String, Bool, true, false, not, ◌==◌, ltb, if◌then◌else◌, ◌<>◌, decimal, join,
  length, filter, Option, none, some, List, [], ◌∷◌, get, put, get_or,
}
use droid_swarm.Prelude.Sets.{has}
use droid_swarm.Audit.Json.{Json, Members, num, str, bool, obj, end, member}
use droid_swarm.Runs.Records.{Metadata, PersistedTask}
use droid_swarm.Runs.Lifecycle.{set_key}
use droid_swarm.Scheduler.Policy.{TaskPolicy, record_policy_violation}
use droid_swarm.Scheduler.State.{
  SchedulerState, get_task, update_task_metadata, build_and_persist_digest,
}
use droid_swarm.Scheduler.Gate.{clear_retry}
use droid_swarm.Scheduler.Results.{WorkerResult}

-- What a result reports of its budget and activity: tokens in and out together, and the tool of each
-- call
pub record Metrics : Type 0 where
  pub tokens : ℕ
  pub tools : List String

-- A number as `Json` holds it, without sign, point or exponent
unfoldable pub number_from : ℕ → String → ℕ
number_from value String.[] = value
number_from value (String.◌∷◌ c text) = number_from (value * 10 + (code c - 48)) text

-- `value ?? 0`
abbrev pub as_number : Option Json → ℕ
as_number (some (num text)) = number_from 0 text
as_number _ = 0

abbrev pub get_member : String → Members → Option Json
get_member key end = none
get_member key (member name value rest) =
    let later = get_member key rest in if name == key then some value else later

abbrev pub set_member : String → Json → Members → Members
set_member key value end = member key value end
set_member key value (member name old rest) =
    let later = set_member key value rest in
    if name == key then member name value rest else member name old later

abbrev pub members_of : Option Json → Members
members_of (some (obj members)) = members
members_of _ = end

-- `existingUsage`
abbrev pub existing_usage : PersistedTask → Members
existing_usage task = members_of (get (get_or task.metadata []) "usage")

abbrev pub tokens_total : Members → Metrics → ℕ
tokens_total usage metrics = as_number (get_member "tokens" usage) + metrics.tokens

abbrev pub tool_calls_total : Members → Metrics → ℕ
tool_calls_total usage metrics = as_number (get_member "tool_calls" usage) + length metrics.tools

-- The metadata that `persistUsage` writes
abbrev pub with_usage : PersistedTask → Metrics → Metadata
with_usage task metrics =
    let usage = existing_usage task in
    put (get_or task.metadata []) "usage" (
      obj (
        set_member "tool_calls" (num (decimal (tool_calls_total usage metrics)))
          (set_member "tokens" (num (decimal (tokens_total usage metrics))) usage)))

abbrev pub exceeds : Option ℕ → ℕ → Bool
exceeds none n = false
exceeds (some limit) n = ltb limit n

abbrev pub limit_text : Option ℕ → String
limit_text none = "undefined"
limit_text (some limit) = decimal limit

abbrev pub allowed_only : Option (List String) → List String → List String
allowed_only none tools = []
allowed_only (some []) tools = []
allowed_only (some (tool ∷ more)) tools = filter (λ used. not (has (tool ∷ more) used)) tools

abbrev pub too_late : Option ℕ → Option ℕ → Option (String × ℕ)
too_late none elapsed = none
too_late (some limit) none = none
too_late (some limit) (some elapsed) =
    if ltb limit elapsed
    then some
        ("Task exceeded timeout " <> decimal limit <> "ms (" <> decimal elapsed <> "ms)", elapsed)
    else none

abbrev pub forbidden : List String → Option (String × ℕ) → Option (String × ℕ)
forbidden [] otherwise = otherwise
forbidden (tool ∷ more) otherwise =
    some
      ("Tool usage forbidden by policy (" <> join ", " (tool ∷ more) <> ")", length (tool ∷ more))

-- The first limit of a resolved policy that the result breaks, with the age of the attempt in
-- milliseconds where the attempt is there
unfoldable pub usage_violation : TaskPolicy → Members → Metrics → Option ℕ → Option (String × ℕ)
usage_violation policy usage metrics elapsed =
    if exceeds policy.max_tokens (tokens_total usage metrics)
    then some (
      "Policy max tokens "
          <> limit_text policy.max_tokens
          <> " exceeded ("
          <> decimal (tokens_total usage metrics)
          <> ")",
      tokens_total usage metrics,
    )
    else if exceeds policy.max_tool_calls (tool_calls_total usage metrics)
    then some (
      "Policy max tool calls "
          <> limit_text policy.max_tool_calls
          <> " exceeded ("
          <> decimal (tool_calls_total usage metrics)
          <> ")",
      tool_calls_total usage metrics,
    )
    else forbidden (allowed_only policy.allowed_tools metrics.tools)
        (too_late policy.timeout_ms elapsed)

abbrev pub constrained :
    String → PersistedTask → SchedulerState → Option (String × ℕ) → SchedulerState × Bool
constrained now task s none = (s, true)
constrained now task s (some violation) =
    (record_policy_violation now task violation.0 violation.1 s, false)

-- `applyUsageConstraints`, which persists the usage on every path
unfoldable pub apply_usage_constraints :
    TaskPolicy
    → String
    → PersistedTask
    → Metrics
    → Option ℕ
    → SchedulerState
    → SchedulerState × Bool
apply_usage_constraints policy now task metrics elapsed s =
    constrained now task (update_task_metadata now task.task_id (with_usage task metrics) s)
      (usage_violation policy (existing_usage task) metrics elapsed)

-- The metadata that `handleAgentResult` writes about the outcome
abbrev pub with_outcome : PersistedTask → WorkerResult → Metadata
with_outcome task result = set_key "last_outcome_reason" result.reason_code (
    put (put (get_or task.metadata []) "last_outcome_success" (bool result.success))
      "last_outcome_summary" (str result.summary))

abbrev pub outcome_recorded :
    String → PersistedTask → WorkerResult → SchedulerState × Bool → SchedulerState × Bool
outcome_recorded now task result (s, false) = (s, false)
outcome_recorded now task result (s, true) = (
  build_and_persist_digest task.task_id result.summary
      (update_task_metadata now task.task_id (with_outcome task result) s),
  true,
)

abbrev pub result_of :
    TaskPolicy
    → String
    → WorkerResult
    → Metrics
    → Option ℕ
    → SchedulerState
    → Option PersistedTask
    → SchedulerState × Bool
result_of policy now result metrics elapsed s none = (s, false)
result_of policy now result metrics elapsed s (some task) =
    outcome_recorded now task result
      (apply_usage_constraints policy now task metrics elapsed (clear_retry task.task_id s))

-- `handleAgentResult` up to the stage of the task, which follows after `true`; the rows of the
-- attempt and of the worker's result are not among these tables.
unfoldable pub record_agent_result :
    TaskPolicy
    → String
    → String
    → WorkerResult
    → Metrics
    → Option ℕ
    → SchedulerState
    → SchedulerState × Bool
record_agent_result policy now task_id result metrics elapsed s =
    result_of policy now result metrics elapsed s (get_task task_id s)
