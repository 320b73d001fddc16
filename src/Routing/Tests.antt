-- ===== src/Routing/Tests.antt =====
-- Routes in concrete contexts, and the theorems about them there.
use droid_swarm.Prelude.{
  not, ◌==◌, filter, String, Bool, true, false, Option, none, some, ◌≡◌, refl,
}
use droid_swarm.Prelude.Words.{lowers_to, trim, text_length}
use droid_swarm.Router.Hints.{begins_with, includes, some_hint}
use droid_swarm.Router.Decision.{
  choose_backend_decision, infer_mythos_context, infer_heavy_local_context, infer_ralph_context,
}
use droid_swarm.Routing.Roles.{SwarmRole, role_id, role_catalog, match_alias, normalize_swarm_role}
use droid_swarm.Routing.Catalogue.{shadowed, normalize_swarm_role-role_id}
use droid_swarm.Routing.Decision.{
  RoutingContext, PriorityBias, codex_cloud, codex_cli, infer_complexity, apple_matched, decide,
}
use droid_swarm.Routing.Cloud.{MayUseCloud, decide-MayUseCloud, IsAvailable, decide-IsAvailable}

abbrev context : String → String → Option Bool → RoutingContext
context role summary allow_cloud = record {
  role = role;
  task_type = some "task";
  stage = none;
  summary = some summary;
  iteration_count_expected = none;
  self_correction_needed = none;
  long_horizon = none;
  polishing_phase = none;
  failure_recovery_mode = none;
  read_only = none;
  allow_cloud = allow_cloud;
  queue_depth = none;
  fallback_count = none;
  local_queue_tolerance = none;
  priority_bias = some PriorityBias.cost;
  planning_hints = none;
  apple_hints = none;
  apple_roles = none;
  apple_enabled = none;
  prefer_apple_intelligence = none;
  platform = "linux";
  arch = "x64";
  mlx_available = none;
  mythos_available = none;
  code_hints = none;
  cloud_escalation_hints = none;
}

goes_up : (decide false (context "Coder" "A Migration" (some true))).engine ≡ codex_cloud
unfolding decide apple_matched infer_complexity choose_backend_decision infer_mythos_context
    infer_heavy_local_context infer_ralph_context some_hint includes begins_with lowers_to trim
    text_length normalize_swarm_role match_alias
goes_up = refl

stays : (decide false (context "coder" "A Migration" none)).engine ≡ codex_cli
unfolding decide apple_matched infer_complexity choose_backend_decision infer_mythos_context
    infer_heavy_local_context infer_ralph_context some_hint includes begins_with lowers_to trim
    text_length normalize_swarm_role match_alias
stays = refl

decide-MayUseCloud_example : MayUseCloud false (context "Coder" "A Migration" (some true))
decide-MayUseCloud_example =
    decide-MayUseCloud false (context "Coder" "A Migration" (some true)) goes_up

decide-IsAvailable_example :
    IsAvailable
      (context "reviewer" "A Migration" none)
      (decide false (context "reviewer" "A Migration" none)).engine
decide-IsAvailable_example = decide-IsAvailable false (context "reviewer" "A Migration" none)

normalize_swarm_role-role_id_example :
    (normalize_swarm_role (role_id SwarmRole.arbiter) ≡ SwarmRole.arbiter)
    × (filter
          (λ alias. not (role_id (normalize_swarm_role alias) == role_id SwarmRole.arbiter))
          (role_catalog SwarmRole.arbiter).aliases
        ≡ shadowed SwarmRole.arbiter)
normalize_swarm_role-role_id_example = normalize_swarm_role-role_id SwarmRole.arbiter
