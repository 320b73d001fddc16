-- ===== src/Routing/Roles.antt =====
-- The roles of a swarm: packages/shared-routing/src/role-catalog.ts.
use droid_swarm.Prelude.{
  String, Bool, true, false, ◌||◌, any, Option, none, some, find, List, [], ◌∷◌, map, Option,
}
use droid_swarm.Prelude.Words.{trim, lowers_to}
use droid_swarm.Router.Hints.{includes}

pub data SwarmRole : Type 0 where
  planner researcher repo_scanner summarizer reviewer verifier checkpoint_compressor
        implementation_helper bugfix_helper apple_specialist arbiter :
      SwarmRole

pub data ModelTier : Type 0 where
  local_cheap local_capable cloud : ModelTier

pub record SwarmRoleDefinition : Type 0 where
  pub id : SwarmRole
  pub aliases : List String
  pub default_model_tier : ModelTier
  pub allowed_tools : List String
  pub expected_outputs : List String
  pub allow_parallel_instances : Bool
  pub verification_required : Bool
  pub spawn_heuristics : List String

-- The text of a role
abbrev pub role_id : SwarmRole → String
role_id planner = "planner"
role_id researcher = "researcher"
role_id repo_scanner = "repo-scanner"
role_id summarizer = "summarizer"
role_id reviewer = "reviewer"
role_id verifier = "verifier"
role_id checkpoint_compressor = "checkpoint-compressor"
role_id implementation_helper = "implementation-helper"
role_id bugfix_helper = "bugfix-helper"
role_id apple_specialist = "apple-specialist"
role_id arbiter = "arbiter"

-- `ROLE_CATALOG`
abbrev pub role_catalog : SwarmRole → SwarmRoleDefinition
role_catalog planner = record {
  id = planner;
  aliases = "planner" ∷ "plan" ∷ "orchestrator" ∷ [];
  default_model_tier = local_cheap;
  allowed_tools = "read" ∷ "search" ∷ "plan" ∷ [];
  expected_outputs = "task plan" ∷ "spawn requests" ∷ "risk summary" ∷ [];
  allow_parallel_instances = false;
  verification_required = false;
  spawn_heuristics = "new root task" ∷ "unclear execution plan" ∷ "handoff synthesis needed" ∷ [];
}
role_catalog researcher = record {
  id = researcher;
  aliases = "researcher" ∷ "research" ∷ [];
  default_model_tier = local_cheap;
  allowed_tools = "read" ∷ "search" ∷ "summarize" ∷ [];
  expected_outputs = "findings summary" ∷ "open questions" ∷ "source-backed notes" ∷ [];
  allow_parallel_instances = true;
  verification_required = false;
  spawn_heuristics =
      "many unresolved questions" ∷ "external API uncertainty" ∷ "domain investigation needed" ∷ [];
}
role_catalog repo_scanner = record {
  id = repo_scanner;
  aliases = "repo-scanner" ∷ "scanner" ∷ "scan" ∷ [];
  default_model_tier = local_capable;
  allowed_tools = "read" ∷ "search" ∷ "index" ∷ [];
  expected_outputs = "codebase map" ∷ "relevant file set" ∷ "dependency summary" ∷ [];
  allow_parallel_instances = true;
  verification_required = false;
  spawn_heuristics = "large repo" ∷ "unclear ownership boundaries" ∷ "many candidate files" ∷ [];
}
role_catalog summarizer = record {
  id = summarizer;
  aliases = "summarizer" ∷ "summary" ∷ [];
  default_model_tier = local_cheap;
  allowed_tools = "read" ∷ "summarize" ∷ "compress" ∷ [];
  expected_outputs = "summary update" ∷ "digest refresh" ∷ "context reduction" ∷ [];
  allow_parallel_instances = true;
  verification_required = false;
  spawn_heuristics = "context growth" ∷ "many sibling results" ∷ "handoff compression needed" ∷ [];
}
role_catalog reviewer = record {
  id = reviewer;
  aliases = "reviewer" ∷ "review" ∷ "critic" ∷ [];
  default_model_tier = local_cheap;
  allowed_tools = "read" ∷ "search" ∷ "review" ∷ [];
  expected_outputs = "risk review" ∷ "change critique" ∷ "approval recommendation" ∷ [];
  allow_parallel_instances = true;
  verification_required = true;
  spawn_heuristics = "high-risk changes" ∷ "conflicting outputs" ∷ "review gate triggered" ∷ [];
}
role_catalog verifier = record {
  id = verifier;
  aliases = "verifier" ∷ "tester" ∷ "test" ∷ "qa" ∷ [];
  default_model_tier = local_cheap;
  allowed_tools = "read" ∷ "run-tests" ∷ "verify" ∷ [];
  expected_outputs = "verification result" ∷ "failure report" ∷ "confidence update" ∷ [];
  allow_parallel_instances = true;
  verification_required = false;
  spawn_heuristics = "completion gate" ∷ "artifact verification" ∷ "regression confirmation" ∷ [];
}
role_catalog checkpoint_compressor = record {
  id = checkpoint_compressor;
  aliases = "checkpoint-compressor" ∷ "compressor" ∷ "checkpoint" ∷ "compress" ∷ [];
  default_model_tier = local_cheap;
  allowed_tools = "read" ∷ "summarize" ∷ "compress" ∷ [];
  expected_outputs = "checkpoint summary" ∷ "digest refresh" ∷ "pinned memory update" ∷ [];
  allow_parallel_instances = true;
  verification_required = false;
  spawn_heuristics = "long task context" ∷ "resume preparation" ∷ "pre-handoff compression" ∷ [];
}
role_catalog implementation_helper = record {
  id = implementation_helper;
  aliases =
      "implementation-helper" ∷ "coder" ∷ "coder-backend" ∷ "coder-frontend" ∷ "developer" ∷ "dev"
      ∷ "feature" ∷ [];
  default_model_tier = local_capable;
  allowed_tools = "read" ∷ "edit" ∷ "run-tests" ∷ [];
  expected_outputs = "code change" ∷ "artifact update" ∷ "implementation summary" ∷ [];
  allow_parallel_instances = false;
  verification_required = true;
  spawn_heuristics =
      "concrete code change needed" ∷ "bounded implementation slice" ∷ "non-Apple feature work"
      ∷ [];
}
role_catalog bugfix_helper = record {
  id = bugfix_helper;
  aliases = "bugfix-helper" ∷ "bugfix" ∷ "bug" ∷ [];
  default_model_tier = local_capable;
  allowed_tools = "read" ∷ "edit" ∷ "run-tests" ∷ "debug" ∷ [];
  expected_outputs = "bug reproduction" ∷ "fix summary" ∷ "regression notes" ∷ [];
  allow_parallel_instances = false;
  verification_required = true;
  spawn_heuristics = "bug triage" ∷ "runtime failure" ∷ "regression investigation" ∷ [];
}
role_catalog apple_specialist = record {
  id = apple_specialist;
  aliases =
      "apple-specialist" ∷ "coder-ios" ∷ "ios" ∷ "macos" ∷ "swift" ∷ "swiftui" ∷ "visionos"
      ∷ "xcode" ∷ [];
  default_model_tier = local_capable;
  allowed_tools = "read" ∷ "edit" ∷ "run-tests" ∷ "apple-sdk" ∷ [];
  expected_outputs =
      "Apple platform implementation" ∷ "project config changes" ∷ "platform notes" ∷ [];
  allow_parallel_instances = false;
  verification_required = true;
  spawn_heuristics =
      "Apple ecosystem work" ∷ "Swift or Xcode changes" ∷ "platform-specific routing" ∷ [];
}
role_catalog arbiter = record {
  id = arbiter;
  aliases = "arbiter" ∷ "comparison-reviewer" ∷ "comparison" ∷ "merge-reviewer" ∷ [];
  default_model_tier = local_cheap;
  allowed_tools = "read" ∷ "compare" ∷ "summarize" ∷ [];
  expected_outputs =
      "agreement summary" ∷ "disagreement summary" ∷ "winner recommendation" ∷ "follow-up action"
      ∷ [];
  allow_parallel_instances = false;
  verification_required = false;
  spawn_heuristics =
      "parallel outputs disagree" ∷ "same-role conflict" ∷ "human escalation preparation" ∷ [];
}

-- `listSwarmRoleDefinitions`
abbrev pub list_swarm_role_definitions : List SwarmRoleDefinition
list_swarm_role_definitions = map role_catalog (
    planner ∷ researcher ∷ repo_scanner ∷ summarizer ∷ reviewer ∷ verifier ∷ checkpoint_compressor
    ∷ implementation_helper ∷ bugfix_helper ∷ apple_specialist ∷ arbiter ∷ [])

-- `matchAlias` on the trimmed text, which is read without regard to case
unfoldable pub match_alias : String → SwarmRoleDefinition → Bool
match_alias role definition =
    any (λ alias. lowers_to role alias || includes role alias) definition.aliases

abbrev pub id_or_default : Option SwarmRoleDefinition → SwarmRole
id_or_default none = implementation_helper
id_or_default (some definition) = definition.id

-- `normalizeSwarmRole`: the loop returns at the first match.
unfoldable pub normalize_swarm_role : String → SwarmRole
unfolding match_alias
normalize_swarm_role role =
    id_or_default (find (match_alias (trim role)) list_swarm_role_definitions)

-- `getSwarmRoleDefinition`
abbrev pub get_swarm_role_definition : String → SwarmRoleDefinition
get_swarm_role_definition role = role_catalog (normalize_swarm_role role)
