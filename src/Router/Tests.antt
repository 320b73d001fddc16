-- ===== src/Router/Tests.antt =====
-- The router in concrete contexts, and its theorem there.
use droid_swarm.Prelude.{String, Bool, true, false, none, some, ◌≡◌, refl}
use droid_swarm.Router.Hints.{begins_with, includes, some_hint}
use droid_swarm.Router.Decision.{
  openmythos, mlx, ModelRouterContext, infer_mythos_context, infer_heavy_local_context,
  choose_backend_decision,
}

abbrev context : String → Bool → ModelRouterContext
context summary mythos = record {
  platform = "linux";
  arch = "x64";
  task_type = some "task";
  stage = none;
  summary = some summary;
  context_length = none;
  iteration_count_expected = none;
  self_correction_needed = none;
  long_horizon = none;
  polishing_phase = none;
  failure_recovery_mode = none;
  prefer_apple_intelligence = none;
  apple_runtime_available = none;
  mlx_available = some true;
  mythos_available = some mythos;
  prefer_mlx = none;
}

-- Hints are found in any case.
reviews : (choose_backend_decision false (context "Code REVIEW" true)).backend ≡ openmythos
unfolding choose_backend_decision infer_mythos_context infer_heavy_local_context some_hint includes
    begins_with
reviews = refl

embeds : (choose_backend_decision false (context "an Embedding" false)).backend ≡ mlx
unfolding choose_backend_decision infer_mythos_context infer_heavy_local_context some_hint includes
    begins_with
embeds = refl
