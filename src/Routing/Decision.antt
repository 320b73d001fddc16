-- ===== src/Routing/Decision.antt =====
-- `RoutingService` of packages/shared-routing/src/index.ts. Texts are read without regard to case, as
-- the code lowers them first; a confidence is in hundredths.
use Prim.Native.Nat.{max}
use droid_swarm.Prelude.{
  ℕ, String, Bool, true, false, not, ◌&&◌, ◌||◌, leb, if◌then◌else◌, get_or, ◌<>◌, any, Option,
  none, some, List, [], ◌∷◌,
}
use droid_swarm.Prelude.Words.{lowers_to, text_length, trim}
use droid_swarm.Router.Hints.{includes, some_hint}
use droid_swarm.Router.Decision.{
  ModelBackend, ModelRouterContext, ModelRouteDecision, is_true, choose_backend_decision,
}
use droid_swarm.Routing.Roles.{
  SwarmRole, planner, researcher, repo_scanner, summarizer, reviewer, verifier,
  checkpoint_compressor, implementation_helper, bugfix_helper, apple_specialist, arbiter, ModelTier,
  local_capable, cloud, get_swarm_role_definition,
}

pub data PriorityBias : Type 0 where
  time cost balanced : PriorityBias

pub data Complexity : Type 0 where
  low medium high : Complexity

pub data WorkerEngine : Type 0 where
  local_llama mlx apple_intelligence openmythos codex_cloud codex_cli : WorkerEngine

pub data RouteKind : Type 0 where
  default_local default_local_saturated planner_local planner_local_saturated apple_local
        apple_local_saturated mythos_local mythos_local_throttled ralph_persistent_loop coder_local
        coder_local_queued cloud_escalated cloud_escalated_from_local_saturation :
      RouteKind

-- `RoutingContext`; the platform and the architecture are those of the process where none is given.
pub record RoutingContext : Type 0 where
  pub role : String
  pub task_type : Option String
  pub stage : Option String
  pub summary : Option String
  pub iteration_count_expected : Option ℕ
  pub self_correction_needed : Option Bool
  pub long_horizon : Option Bool
  pub polishing_phase : Option Bool
  pub failure_recovery_mode : Option Bool
  pub read_only : Option Bool
  pub allow_cloud : Option Bool
  pub queue_depth : Option ℕ
  pub fallback_count : Option ℕ
  pub local_queue_tolerance : Option ℕ
  pub priority_bias : Option PriorityBias
  pub planning_hints : Option (List String)
  pub apple_hints : Option (List String)
  pub apple_roles : Option (List String)
  pub apple_enabled : Option Bool
  pub prefer_apple_intelligence : Option Bool
  pub platform : String
  pub arch : String
  pub mlx_available : Option Bool
  pub mythos_available : Option Bool
  pub code_hints : Option (List String)
  pub cloud_escalation_hints : Option (List String)

pub record RoutingDecision : Type 0 where
  pub engine : WorkerEngine
  pub model : String
  pub model_tier : ModelTier
  pub route_kind : RouteKind
  pub escalation_reason : Option String
  pub reason : String
  pub role : String
  pub read_only : Bool
  pub complexity : Complexity
  pub confidence : ℕ
  pub skill_packs : List String
  pub queue_depth : ℕ
  pub fallback_count : ℕ
  pub local_first : Bool
  pub cloud_escalated : Bool

abbrev pub default_code_hints : List String
default_code_hints = "code" ∷ "coder" ∷ "dev" ∷ "implementation" ∷ "debug" ∷ "refactor" ∷ []

abbrev pub default_planning_hints : List String
default_planning_hints =
    "plan" ∷ "planner" ∷ "research" ∷ "review" ∷ "orchestrator" ∷ "checkpoint" ∷ "compress" ∷ []

abbrev pub default_apple_roles : List String
default_apple_roles = "apple" ∷ "ios" ∷ "macos" ∷ "swift" ∷ "swiftui" ∷ "xcode" ∷ "visionos" ∷ []

abbrev pub default_apple_hints : List String
default_apple_hints =
    "apple" ∷ "ios" ∷ "ipad" ∷ "iphone" ∷ "macos" ∷ "osx" ∷ "swift" ∷ "swiftui" ∷ "objective-c"
    ∷ "uikit" ∷ "appkit" ∷ "xcode" ∷ "testflight" ∷ "visionos" ∷ "watchos" ∷ "tvos" ∷ []

abbrev pub default_cloud_escalation_hints : List String
default_cloud_escalation_hints =
    "refactor" ∷ "debug" ∷ "multi-file" ∷ "migration" ∷ "large-scale" ∷ []

abbrev pub all_text : RoutingContext → String
all_text c = c.role <> " " <> get_or c.task_type "" <> " " <> get_or c.summary ""

-- `inferComplexity`
unfoldable pub infer_complexity : RoutingContext → Complexity
infer_complexity c =
    if some_hint (get_or c.cloud_escalation_hints default_cloud_escalation_hints) (all_text c)
    then high
    else if some_hint (get_or c.code_hints default_code_hints) (all_text c)
    then medium
    else low

-- `defaultSkillPacks`, of the role that the text names
abbrev pub default_skill_packs : SwarmRole → List String
default_skill_packs planner = "planner" ∷ []
default_skill_packs reviewer = "reviewer" ∷ []
default_skill_packs arbiter = "reviewer" ∷ []
default_skill_packs researcher = "researcher" ∷ []
default_skill_packs repo_scanner = "researcher" ∷ []
default_skill_packs bugfix_helper = "bugfix" ∷ []
default_skill_packs implementation_helper = "feature" ∷ []
default_skill_packs apple_specialist = "feature" ∷ []
default_skill_packs summarizer = "planner" ∷ []
default_skill_packs checkpoint_compressor = "planner" ∷ []
default_skill_packs verifier = "orchestrator" ∷ []

abbrev pub is_apple_specialist : SwarmRole → Bool
is_apple_specialist apple_specialist = true
is_apple_specialist _ = false

-- The roles that plan, review and compress
abbrev pub plans : SwarmRole → Bool
plans planner = true
plans researcher = true
plans reviewer = true
plans verifier = true
plans summarizer = true
plans checkpoint_compressor = true
plans arbiter = true
plans _ = false

abbrev pub codes : SwarmRole → Bool
codes implementation_helper = true
codes bugfix_helper = true
codes _ = false

abbrev pub stage_is : RoutingContext → String → Bool
stage_is c word = lowers_to (get_or c.stage "") word

abbrev pub router_context : RoutingContext → ModelRouterContext
router_context c = record {
  platform = c.platform;
  arch = c.arch;
  task_type = some (get_or c.task_type "");
  stage = some (get_or c.stage "");
  summary = c.summary;
  context_length = elim c.summary [ none ↦ none | some text ↦ some (text_length text) ];
  iteration_count_expected = c.iteration_count_expected;
  self_correction_needed = c.self_correction_needed;
  long_horizon = c.long_horizon;
  polishing_phase = c.polishing_phase;
  failure_recovery_mode = c.failure_recovery_mode;
  prefer_apple_intelligence = c.prefer_apple_intelligence;
  apple_runtime_available = some (get_or c.apple_enabled true);
  mlx_available = c.mlx_available;
  mythos_available = c.mythos_available;
  prefer_mlx = none;
}

-- `readOnly`
abbrev pub is_read_only : RoutingContext → Bool
is_read_only c = get_or c.read_only (stage_is c "review" || stage_is c "verification")

-- `localSaturated`
abbrev pub local_saturated : RoutingContext → Bool
local_saturated c =
    leb (max 1 (get_or c.local_queue_tolerance 4)) (get_or c.queue_depth 0)
    || leb 2 (get_or c.fallback_count 0)

-- `appleMatched`
unfoldable pub apple_matched : RoutingContext → Bool
apple_matched c =
    is_apple_specialist (get_swarm_role_definition c.role).id
    || some_hint (get_or c.apple_roles default_apple_roles) c.role
    || some_hint (get_or c.apple_hints default_apple_hints) (all_text c)

-- `withAppleFallbackReason`
abbrev pub with_apple_fallback_reason : RoutingContext → String → String
with_apple_fallback_reason c reason =
    if apple_matched c && not (get_or c.apple_enabled true)
    then "Apple Intelligence unavailable; fell back to standard local-first routing. " <> reason
    else reason

abbrev pub engine_of : ModelBackend → WorkerEngine
engine_of ModelBackend.mlx = WorkerEngine.mlx
engine_of ModelBackend.openmythos = WorkerEngine.openmythos
engine_of ModelBackend.apple_intelligence = WorkerEngine.apple_intelligence
engine_of ModelBackend.local_llama = WorkerEngine.local_llama

-- The model of a backend, with the llama model of the route
abbrev pub model_of : ModelBackend → String → String
model_of ModelBackend.mlx llama = "mlx/local"
model_of ModelBackend.openmythos llama = "openmythos/local"
model_of ModelBackend.apple_intelligence llama = "apple-intelligence/local"
model_of ModelBackend.local_llama llama = llama

abbrev pub llama_model : RouteKind → String
llama_model planner_local = "llama.cpp/planner"
llama_model planner_local_saturated = "llama.cpp/planner"
llama_model _ = "llama.cpp/default"

abbrev pub is_apple : ModelBackend → Bool
is_apple ModelBackend.apple_intelligence = true
is_apple _ = false

abbrev pub is_mythos : ModelBackend → Bool
is_mythos ModelBackend.openmythos = true
is_mythos _ = false

abbrev pub local_model_decision : Bool → RoutingContext → ModelRouteDecision
local_model_decision ralph_available c = choose_backend_decision ralph_available (router_context c)

-- The first return: work for Apple platforms where their runtime was chosen
abbrev pub apple_decision : ModelRouteDecision → RoutingContext → RoutingDecision
apple_decision model c =
    let role = get_swarm_role_definition c.role in
    record {
      engine = WorkerEngine.apple_intelligence;
      model = "apple-intelligence/local";
      model_tier = role.default_model_tier;
      route_kind = if local_saturated c then apple_local_saturated else apple_local;
      escalation_reason = none;
      reason =
          if local_saturated c
          then "Apple-local route retained despite local saturation because Apple-specialist work stays local-first"
          else "First-class local Apple Intelligence rule matched Apple ecosystem task scope. "
            <> model.reason;
      role = c.role;
      read_only = is_read_only c;
      complexity = infer_complexity c;
      confidence = 90;
      skill_packs = default_skill_packs role.id;
      queue_depth = get_or c.queue_depth 0;
      fallback_count = get_or c.fallback_count 0;
      local_first = true;
      cloud_escalated = false;
    }

-- `resolveLocalBackendDecision`
abbrev pub resolve_local_backend_decision :
    ModelRouteDecision → RoutingContext → RouteKind → String → ℕ → RoutingDecision
resolve_local_backend_decision model c route_kind reason_prefix confidence =
    let role = get_swarm_role_definition c.role in
    record {
      engine = engine_of model.backend;
      model = model_of model.backend (llama_model route_kind);
      model_tier = role.default_model_tier;
      route_kind = route_kind;
      escalation_reason = none;
      reason = trim (reason_prefix <> " " <> model.reason);
      role = c.role;
      read_only = is_read_only c;
      complexity = infer_complexity c;
      confidence = confidence;
      skill_packs = default_skill_packs role.id;
      queue_depth = get_or c.queue_depth 0;
      fallback_count = get_or c.fallback_count 0;
      local_first = true;
      cloud_escalated = false;
    }

abbrev pub at_least_medium : Complexity → Complexity
at_least_medium low = medium
at_least_medium other = other

abbrev pub ralph_decision : ModelRouteDecision → RoutingContext → RoutingDecision
ralph_decision model c = record {
  engine = engine_of model.backend;
  model = model_of model.backend "llama.cpp/planner";
  model_tier = local_capable;
  route_kind = ralph_persistent_loop;
  escalation_reason = none;
  reason =
      "Persistent refinement signals detected; routing to the Ralph Wiggum worker loop. "
      <> model.reason;
  role = c.role;
  read_only = is_read_only c;
  complexity = at_least_medium (infer_complexity c);
  confidence = 88;
  skill_packs = "ralph-wiggum-worker" ∷ [];
  queue_depth = get_or c.queue_depth 0;
  fallback_count = get_or c.fallback_count 0;
  local_first = true;
  cloud_escalated = false;
}

abbrev pub is_high : Complexity → Bool
is_high high = true
is_high _ = false

abbrev pub is_medium : Complexity → Bool
is_medium medium = true
is_medium _ = false

abbrev pub is_time : PriorityBias → Bool
is_time time = true
is_time _ = false

abbrev pub is_cost : PriorityBias → Bool
is_cost cost = true
is_cost _ = false

-- `shouldEscalate`
abbrev pub should_escalate : RoutingContext → Bool
should_escalate c =
    let complexity = infer_complexity c in
    let bias = get_or c.priority_bias balanced in
    is_true c.allow_cloud
    && (is_high complexity
        || (local_saturated c && not (is_cost bias))
        || (is_time bias && is_medium complexity))

abbrev pub escalation_reason_of : Bool → Bool → Option String
escalation_reason_of true true = some "local_saturated_and_cloud_allowed"
escalation_reason_of true false = some "explicit_cloud_policy_with_high_complexity"
escalation_reason_of false true = some "local_queue_retained_due_to_local_first"
escalation_reason_of false false = none

abbrev pub coder_reason : Bool → Bool → String
coder_reason true true = "Cloud escalation allowed because local-first coding capacity is saturated"
coder_reason true false = "Explicit cloud escalation approved after local-first complexity check"
coder_reason false true =
    "Local-first coding helper retained locally and should queue until capacity clears"
coder_reason false false = "Local-first coding helper selected by default"

abbrev pub coder_route : Bool → Bool → RouteKind
coder_route true true = cloud_escalated_from_local_saturation
coder_route true false = cloud_escalated
coder_route false true = coder_local_queued
coder_route false false = coder_local

abbrev pub coder_decision : RoutingContext → RoutingDecision
coder_decision c =
    let role = get_swarm_role_definition c.role in
    let escalate = should_escalate c in
    let saturated = local_saturated c in
    record {
      engine = if escalate then codex_cloud else codex_cli;
      model = if escalate then "codex-cloud/coder" else "codex-cli/coder";
      model_tier = if escalate then cloud else role.default_model_tier;
      route_kind = coder_route escalate saturated;
      escalation_reason = escalation_reason_of escalate saturated;
      reason = with_apple_fallback_reason c (coder_reason escalate saturated);
      role = c.role;
      read_only = is_read_only c;
      complexity = infer_complexity c;
      confidence = if escalate then 79 else 72;
      skill_packs = default_skill_packs role.id;
      queue_depth = get_or c.queue_depth 0;
      fallback_count = get_or c.fallback_count 0;
      local_first = true;
      cloud_escalated = escalate;
    }

-- The test of the local planning roles
abbrev pub is_planning : RoutingContext → Bool
is_planning c =
    plans (get_swarm_role_definition c.role).id
    || stage_is c "verification"
    || stage_is c "review"
    || some_hint (get_or c.planning_hints default_planning_hints) c.role

-- The test of the coding roles
abbrev pub is_coding : RoutingContext → Bool
is_coding c =
    codes (get_swarm_role_definition c.role).id
    || any (λ hint. includes c.role hint || includes (get_or c.task_type "") hint)
        (get_or c.code_hints default_code_hints)

abbrev pub planning_route : ModelBackend → Bool → RouteKind
planning_route backend saturated =
    if is_mythos backend
    then if saturated then mythos_local_throttled else mythos_local
    else if saturated
    then planner_local_saturated
    else planner_local

-- `decide`; whether the environment enables the Ralph worker is given.
unfoldable pub decide : Bool → RoutingContext → RoutingDecision
decide ralph_available c =
    let model = local_model_decision ralph_available c in
    if apple_matched c && is_apple model.backend
    then apple_decision model c
    else if model.prefer_ralph_worker
    then ralph_decision model c
    else if is_planning c
    then resolve_local_backend_decision model c (planning_route model.backend (local_saturated c))
        (with_apple_fallback_reason c (
          if local_saturated c
          then "Local-first planning, review, and compression roles stay local even when local capacity is saturated."
          else "Local-first planning, review, and orchestration policy."))
        84
    else if is_coding c
    then coder_decision c
    else resolve_local_backend_decision model c
        (if local_saturated c then default_local_saturated else default_local)
        (with_apple_fallback_reason c (
          if local_saturated c
          then "Default local-first execution retained locally while the local tier is saturated."
          else "Default local-first execution policy."))
        75
