-- ===== src/Router/Decision.antt =====
-- `chooseBackendDecision` of packages/model-router/src/index.ts.
use droid_swarm.Prelude.{
  ℕ, String, Bool, true, false, not, ◌&&◌, ◌||◌, ◌==◌, ltb, leb, if◌then◌else◌, get_or, ◌<>◌,
  Option, some, List, [], ◌∷◌,
}
use droid_swarm.Router.Hints.{some_hint}

pub data ModelBackend : Type 0 where
  apple_intelligence mlx local_llama openmythos : ModelBackend

pub record ModelRouterContext : Type 0 where
  pub platform : String
  pub arch : String
  pub task_type : Option String
  pub stage : Option String
  pub summary : Option String
  pub context_length : Option ℕ
  pub iteration_count_expected : Option ℕ
  pub self_correction_needed : Option Bool
  pub long_horizon : Option Bool
  pub polishing_phase : Option Bool
  pub failure_recovery_mode : Option Bool
  pub prefer_apple_intelligence : Option Bool
  pub apple_runtime_available : Option Bool
  pub mlx_available : Option Bool
  pub mythos_available : Option Bool
  pub prefer_mlx : Option Bool

pub record ModelRouteDecision : Type 0 where
  pub backend : ModelBackend
  pub reason : String
  pub prefers_apple_silicon : Bool
  pub apple_runtime_available : Bool
  pub mlx_available : Bool
  pub mythos_available : Bool
  pub prefer_ralph_worker : Bool

abbrev pub heavy_task_hints : List String
heavy_task_hints = "vision" ∷ "embedding" ∷ "analysis" ∷ "summary" ∷ "checkpoint" ∷ "compress" ∷ []

abbrev pub mythos_task_hints : List String
mythos_task_hints =
    "deep" ∷ "recurrent" ∷ "long-horizon" ∷ "code-review" ∷ "review" ∷ "governance" ∷ "evolution"
    ∷ "mythos" ∷ []

abbrev pub ralph_task_hints : List String
ralph_task_hints =
    "long-horizon" ∷ "polish" ∷ "polishing" ∷ "refine" ∷ "refinement" ∷ "iterative" ∷ "synthesis"
    ∷ "recovery" ∷ []

-- `value === true` and `value !== false`
abbrev pub is_true : Option Bool → Bool
is_true (some true) = true
is_true _ = false

abbrev pub not_false : Option Bool → Bool
not_false (some false) = false
not_false _ = true

-- `detectAppleSilicon`
abbrev pub detect_apple_silicon : String → String → Bool
detect_apple_silicon platform arch = platform == "darwin" && arch == "arm64"

abbrev pub combined : ModelRouterContext → String
combined c = get_or c.task_type "" <> " " <> get_or c.stage "" <> " " <> get_or c.summary ""

-- `inferHeavyLocalContext`
unfoldable pub infer_heavy_local_context : ModelRouterContext → Bool
infer_heavy_local_context c =
    if leb 16000 (get_or c.context_length 0) then true else some_hint heavy_task_hints (combined c)

-- `inferMythosContext`
unfoldable pub infer_mythos_context : ModelRouterContext → Bool
infer_mythos_context c =
    leb 20000 (get_or c.context_length 0) || some_hint mythos_task_hints (combined c)

-- `inferRalphContext`
unfoldable pub infer_ralph_context : ModelRouterContext → Bool
infer_ralph_context c =
    ltb 8 (get_or c.iteration_count_expected 0)
    || is_true c.self_correction_needed
    || is_true c.long_horizon
    || is_true c.polishing_phase
    || is_true c.failure_recovery_mode
    || some_hint ralph_task_hints (combined c)

abbrev pub prefers_apple : ModelRouterContext → Bool
prefers_apple c = get_or c.prefer_apple_intelligence (detect_apple_silicon c.platform c.arch)

abbrev pub prefers_mlx : ModelRouterContext → Bool
prefers_mlx c = is_true c.prefer_mlx || (infer_heavy_local_context c && is_true c.mlx_available)

abbrev pub decided : Bool → ModelRouterContext → ModelBackend → String → ModelRouteDecision
decided ralph_available c backend reason = record {
  backend = backend;
  reason = reason;
  prefers_apple_silicon = prefers_apple c;
  apple_runtime_available = not_false c.apple_runtime_available;
  mlx_available = is_true c.mlx_available;
  mythos_available = is_true c.mythos_available;
  prefer_ralph_worker = ralph_available && infer_ralph_context c;
}

-- `chooseBackendDecision`; whether the environment enables the Ralph worker is given.
unfoldable pub choose_backend_decision : Bool → ModelRouterContext → ModelRouteDecision
choose_backend_decision ralph_available c =
    if is_true c.mythos_available && infer_mythos_context c
    then decided ralph_available c openmythos
        "Deep recurrent reasoning detected; preferring OpenMythos for multi-step local cognition."
    else if prefers_apple c && not_false c.apple_runtime_available
    then decided ralph_available c apple_intelligence
        "Apple Silicon host detected; preferring Foundation Models with structured local execution."
    else if (prefers_apple c
          && not (not_false c.apple_runtime_available)
          && is_true c.mlx_available)
        || (prefers_mlx c && is_true c.mlx_available)
    then decided ralph_available c mlx (
        if prefers_apple c
        then "Apple runtime unavailable; falling back to MLX local inference."
        else "Heavy local context detected; preferring MLX over llama.cpp.")
    else decided ralph_available c local_llama (
        if prefers_apple c
        then "Apple runtime unavailable and MLX not ready; falling back to llama.cpp."
        else "Using llama.cpp as the default local backend.")
