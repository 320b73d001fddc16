-- ===== src/Routing/Catalogue.antt =====
-- What texts name which role (packages/shared-routing/src/role-catalog.ts).
use droid_swarm.Prelude.{String, not, ◌==◌, filter, List, [], ◌∷◌, ◌≡◌, refl}
use droid_swarm.Prelude.Words.{trim, lowers_to}
use droid_swarm.Router.Hints.{includes}
use droid_swarm.Routing.Roles.{
  SwarmRole, planner, researcher, repo_scanner, summarizer, reviewer, verifier,
  checkpoint_compressor, implementation_helper, bugfix_helper, apple_specialist, arbiter, role_id,
  role_catalog, normalize_swarm_role,
}

-- The aliases that an earlier role of the catalogue takes for itself
abbrev pub shadowed : SwarmRole → List String
shadowed apple_specialist = "coder-ios" ∷ []
shadowed arbiter = "comparison-reviewer" ∷ "merge-reviewer" ∷ []
shadowed _ = []

-- The id of each role is read as that role, and so is each of its aliases but the shadowed ones.
pub normalize_swarm_role-role_id :
    (role : SwarmRole)
    → (normalize_swarm_role (role_id role) ≡ role)
      × (filter
            (λ alias. not (role_id (normalize_swarm_role alias) == role_id role))
            (role_catalog role).aliases
          ≡ shadowed role)
unfolding normalize_swarm_role trim lowers_to includes
normalize_swarm_role-role_id planner = (refl, refl)
normalize_swarm_role-role_id researcher = (refl, refl)
normalize_swarm_role-role_id repo_scanner = (refl, refl)
normalize_swarm_role-role_id summarizer = (refl, refl)
normalize_swarm_role-role_id reviewer = (refl, refl)
normalize_swarm_role-role_id verifier = (refl, refl)
normalize_swarm_role-role_id checkpoint_compressor = (refl, refl)
normalize_swarm_role-role_id implementation_helper = (refl, refl)
normalize_swarm_role-role_id bugfix_helper = (refl, refl)
normalize_swarm_role-role_id apple_specialist = (refl, refl)
normalize_swarm_role-role_id arbiter = (refl, refl)
