-- ===== src/Scheduler/ResultTests.antt =====
-- Results and parallel groups at concrete tables, and the theorems about them there.
use Prim.Native.Nat.{max, min}
use mathlib.Core.List.{Memᴰ}
use droid_swarm.Prelude.{
  ℕ, ◌≤◌, String, true, false, ◌==◌, length, count, any, none, some, List, [], ◌∷◌, get, put,
  get_or, ◌≡◌, ◌≢◌, refl, ◌⊎◌,
}
use droid_swarm.Prelude.Sets.{has}
use droid_swarm.Prelude.Sets.{of_list}
use droid_swarm.Audit.Json.{str, bool}
use droid_swarm.Runs.Records.{RunStatus, TaskStatus, RunRecord, PersistedTask}
use droid_swarm.Runs.Tests.{run_in, task_in}
use droid_swarm.Routing.Roles.{normalize_swarm_role}
use droid_swarm.Supervisor.Agents.{Supervisor}
use droid_swarm.Scheduler.State.{
  set_task_status, TaskDependencyRecord, SchedulerConfig, Load, SchedulerState, get_task,
  list_dependencies,
}
use droid_swarm.Scheduler.Gate.{can_run, evaluate_dependencies}
use droid_swarm.Scheduler.Policy.{TaskPolicy}
use droid_swarm.Scheduler.Tests.{config, policy, state, root}
use droid_swarm.Scheduler.Tables.{Tasks}
use droid_swarm.Scheduler.Groups.{
  find_dispute, group_by, parallel_group_needs_arbiter, metadata_text, non_empty, may_collapse,
  has_failed, siblings_of, dependency_tasks, find_group_dispute, maybe_collapse_parallel_group,
}
use droid_swarm.Scheduler.Collapse.{IsOvertaken, maybe_collapse_parallel_group-IsOvertaken}
use droid_swarm.Scheduler.Results.{WorkerResult, TaskScheduler}
use droid_swarm.Scheduler.Handlers.{
  FreshIds, handle_artifact_verification_result, handle_arbitration_result, arbitration_outcome,
}
use droid_swarm.Scheduler.Critic.{handle_artifact_verification_result-refused}
use droid_swarm.Scheduler.Arbiter.{handle_arbitration_result-repeats}
use droid_swarm.Scheduler.Parallel.{
  SpawnRequest, Counts, desired_count, capped, expand_parallel_requests,
}
use droid_swarm.Scheduler.Spawned.{expand_parallel_requests-le}
use droid_swarm.Scheduler.Usage.{existing_usage, usage_violation}
use droid_swarm.Scheduler.Accumulated.{Arrival, record_all, record_all-accepted}

-- Two researchers of one group below a task that waits for them
abbrev researcher_in : String → TaskStatus → PersistedTask
researcher_in id status = record (task_in id "r" "2" status) {
  parent_task_id = some "root";
  metadata = some (("parallel_group", str "g") ∷ ("canonical_role", str "researcher") ∷ []);
}

abbrev edge : String → TaskDependencyRecord
edge id = record { task_id = "root"; depends_on_task_id = id; created_at = "2" }

abbrev group_state : SchedulerState
group_state = record state {
  tasks =
      ("root", root)
      ∷ ("a", researcher_in "a" TaskStatus.running)
      ∷ ("b", researcher_in "b" TaskStatus.running)
      ∷ [];
  dependencies = edge "a" ∷ edge "b" ∷ [];
}

group_table : Tasks group_state
unfolding get
group_table = (refl, refl, (refl, refl, (refl, refl, tt)))

abbrev idle : Supervisor
idle = record { agents = []; role_counters = []; remote_target_cursor = 0; registry = [] }

maybe_collapse_parallel_group-IsOvertaken_example :
    (after : PersistedTask) × (get_task "b"
        (maybe_collapse_parallel_group "9"
          (researcher_in "a" TaskStatus.running)
          true
          group_state
          idle).0
      ≡ some after)
    × ((after ≡ researcher_in "b" TaskStatus.running)
        ⊎ ((group : String) × (non_empty
                (metadata_text "parallel_group" (researcher_in "a" TaskStatus.running))
              ≡ some group)
            × (may_collapse (researcher_in "a" TaskStatus.running) true ≡ true)
            × (any has_failed (siblings_of (researcher_in "a" TaskStatus.running) group group_state)
                ≡ false)
            × IsOvertaken
                (researcher_in "a" TaskStatus.running)
                group
                (researcher_in "b" TaskStatus.running)
                after))
unfolding get
maybe_collapse_parallel_group-IsOvertaken_example =
    maybe_collapse_parallel_group-IsOvertaken "9" (researcher_in "a" TaskStatus.running) true
      group_state idle "b" (researcher_in "b" TaskStatus.running) group_table refl

-- A task whose artifact a critic has just accepted
abbrev critic : PersistedTask
critic = record (task_in "critic" "r" "3" TaskStatus.running) {
  parent_task_id = some "root";
  metadata = some (("stage", str "artifact_verification") ∷ ("artifact_id", str "x") ∷ []);
}

abbrev critic_edge : TaskDependencyRecord
critic_edge = record { task_id = "root"; depends_on_task_id = "critic"; created_at = "3" }

abbrev desk : SchedulerState → TaskScheduler
desk s = record {
  state = s;
  pending_checkpoints = [];
  artifact_critic_queue = "x" ∷ [];
  tasks_awaiting_critic = "root" ∷ [];
  outcomes = [];
  checkpoints = [];
  artifacts = [];
  execution_events = [];
  finalized_tasks = [];
}

abbrev critic_state : SchedulerState
critic_state = record state {
  tasks = ("root", root) ∷ ("critic", critic) ∷ [];
  dependencies = critic_edge ∷ [];
}

critic_table : Tasks critic_state
unfolding get
critic_table = (refl, refl, (refl, refl, tt))

abbrev good : WorkerResult
good = record {
  success = true;
  summary = "fine";
  timed_out = false;
  reason_code = none;
  clarification_question = none;
  compressed_content = none;
  facts_added = [];
  decisions_added = [];
  open_questions = [];
}

abbrev ids : FreshIds
ids = record { stage_id = "next"; arbiter_id = "again" }

abbrev run : RunRecord
run = run_in "r" RunStatus.running

handle_artifact_verification_result-refused_example :
    (waiting : PersistedTask) × (get_task "root"
        (handle_artifact_verification_result config run "9" ids critic "t" "critic-1" good
          (desk critic_state)).state
      ≡ some waiting)
    × (waiting.status ≡ TaskStatus.queued)
    × (has
          (handle_artifact_verification_result config run "9" ids critic "t" "critic-1" good
            (desk critic_state)).state.ready_queue
          "root"
        ≡ true)
    × ((any_config : SchedulerConfig) (load : Load) (fuel : ℕ) (later : String) (t : SchedulerState)
        → can_run any_config load fuel later waiting
            (handle_artifact_verification_result config run "9" ids critic "t" "critic-1" good
              (desk critic_state)).state
          ≢ some (t, true))
unfolding get
handle_artifact_verification_result-refused_example =
    handle_artifact_verification_result-refused config run "9" ids critic root critic "t" "critic-1"
      good (desk critic_state) critic_edge critic_table refl refl (Memᴰ.head refl) refl (λ e. cc)
      refl refl

-- A success of the arbiter, where two reviewers have given different reasons
abbrev reviewer_in : String → String → PersistedTask
reviewer_in id reason = record (task_in id "r" "2" TaskStatus.completed) {
  parent_task_id = some "root";
  metadata = some (
      ("parallel_group", str "g")
      ∷ ("canonical_role", str "reviewer")
      ∷ ("last_outcome_success", bool true)
      ∷ ("last_outcome_reason", str reason)
      ∷ []);
}

abbrev arbiter_task : PersistedTask
arbiter_task = record (task_in "arbiter" "r" "3" TaskStatus.running) {
  parent_task_id = some "root";
  metadata = some (
      ("stage", str "arbitration")
      ∷ ("parallel_group", str "g")
      ∷ ("canonical_role", str "arbiter")
      ∷ ("last_outcome_success", bool true)
      ∷ []);
}

abbrev settled_members : List PersistedTask
settled_members =
    reviewer_in "a" "ready"
    ∷ reviewer_in "b" "risky"
    ∷ record arbiter_task { status = TaskStatus.completed; updated_at = "9" }
    ∷ []

abbrev dispute_state : SchedulerState
dispute_state = record state {
  tasks =
      ("root", root)
      ∷ ("a", reviewer_in "a" "ready")
      ∷ ("b", reviewer_in "b" "risky")
      ∷ ("arbiter", arbiter_task)
      ∷ [];
  dependencies = edge "a" ∷ edge "b" ∷ edge "arbiter" ∷ [];
}

abbrev settled_state : SchedulerState
settled_state = arbitration_outcome config run "9" ids arbiter_task root good dispute_state

settled_table : Tasks settled_state
unfolding get put set_task_status
settled_table = (refl, refl, (refl, refl, (refl, refl, (refl, refl, tt))))

settled_dispute :
    find_group_dispute (dependency_tasks (list_dependencies "root" settled_state) settled_state)
    ≡ some ("g", settled_members)
unfolding get put set_task_status find_dispute group_by parallel_group_needs_arbiter of_list
settled_dispute = refl

handle_arbitration_result-repeats_example :
    (has
        (handle_arbitration_result config run "9" ids arbiter_task "t" "arbiter-1" good
          (desk dispute_state)).state.ready_queue
        "again"
      ≡ true)
    × ((after : PersistedTask) × (get_task "root"
            (handle_arbitration_result config run "9" ids arbiter_task "t" "arbiter-1" good
              (desk dispute_state)).state
          ≡ some after)
        × (after.status ≡ TaskStatus.waiting_on_dependency))
unfolding get put set_task_status evaluate_dependencies
handle_arbitration_result-repeats_example =
    handle_arbitration_result-repeats config run "9" ids arbiter_task root root "t" "arbiter-1" "g"
      settled_members good (desk dispute_state) settled_state refl settled_table refl refl refl refl
      (λ e. cc) refl settled_dispute

-- Six researchers are requested while seven questions are open.
abbrev one : SpawnRequest
one = record { role = "researcher"; reason = "open"; instructions = "look" }

abbrev six_requests : List SpawnRequest
six_requests = one ∷ one ∷ one ∷ one ∷ one ∷ one ∷ []

abbrev seven_open : Counts
seven_open = record { open_questions = 7; active_risks = 0; artifact_count = 0; plan_size = 0 }

expand_parallel_requests-le_example :
    (length (expand_parallel_requests policy root seven_open (λ role. role) 5 six_requests)
      ≤ max 1 (min 5 (get_or policy.max_parallel_helpers 5)))
    × (count
          (λ x. x.canonical_role == "researcher")
          (expand_parallel_requests policy root seven_open (λ role. role) 5 six_requests)
        ≤ capped policy.max_same_role_helpers
            (desired_count root (normalize_swarm_role "researcher") seven_open))
expand_parallel_requests-le_example =
    expand_parallel_requests-le policy root seven_open (λ role. role) 5 six_requests "researcher"

-- Three results of 60 tokens each, where the policy allows 100
abbrev frugal : TaskPolicy
frugal = record policy { max_tokens = some 100 }

abbrev sixty_tokens : Arrival
sixty_tokens = record {
  now = "9";
  result = good;
  metrics = record { tokens = 60; tools = [] };
  elapsed = none;
}

sixty_tokens-within :
    usage_violation frugal (existing_usage root) sixty_tokens.metrics sixty_tokens.elapsed ≡ none
unfolding usage_violation get
sixty_tokens-within = refl

record_all-accepted_example :
    ((record_all frugal "root" (sixty_tokens ∷ sixty_tokens ∷ sixty_tokens ∷ []) state).1 ≡ true)
    × ((after : PersistedTask) × (get_task "root"
            (record_all frugal "root" (sixty_tokens ∷ sixty_tokens ∷ sixty_tokens ∷ []) state).0
          ≡ some after)
        × (existing_usage after ≡ existing_usage root))
unfolding get
record_all-accepted_example =
    record_all-accepted frugal "root" (sixty_tokens ∷ sixty_tokens ∷ sixty_tokens ∷ []) state root
      (refl, refl, (refl, refl, tt)) refl
      (sixty_tokens-within, (sixty_tokens-within, (sixty_tokens-within, tt)))
