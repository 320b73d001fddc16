-- ===== src/Governance/Laws.antt =====
-- The built-in laws of packages/shared-governance/src/laws-manifest.ts.
use droid_swarm.Prelude.{
  ℕ, String, Bool, true, false, not, ◌&&◌, ◌||◌, ◌==◌, leb, if◌then◌else◌, get_or, ◌<>◌, join,
  Option, none, some, List, [], ◌∷◌, ◌++◌, filter,
}
use droid_swarm.Prelude.Sets.{has}

pub data SwarmRole : Type 0 where
  master slave : SwarmRole

pub data GuardianVote : Type 0 where
  approve reject veto : GuardianVote

-- A number that is not negative, as a fraction
pub record Ratio : Type 0 where
  pub numerator : ℕ
  pub denominator : ℕ

-- The fields of `GovernanceLawContext` that laws read; the state of Droidspeak is whether it is
-- there.
pub record GovernanceLawContext : Type 0 where
  pub event_type : Option String
  pub actor_role : Option String
  pub swarm_role : Option SwarmRole
  pub audit_logging_enabled : Option Bool
  pub dashboard_enabled : Option Bool
  pub human_approval : Option Bool
  pub droidspeak_state : Bool
  pub quorum_roles : Option (List String)
  pub guardian_vote : Option GuardianVote
  pub recurrent_engine : Option String
  pub spectral_radius : Option Ratio

pub record LawDefinition : Type 0 where
  pub id : String
  pub version : String
  pub title : String
  pub description : String
  pub glyph : String
  pub enforcement : GovernanceLawContext → List String

-- `value === text` of an optional text
abbrev pub is_text : Option String → String → Bool
is_text none t = false
is_text (some s) t = s == t

abbrev pub is_true : Option Bool → Bool
is_true (some true) = true
is_true _ = false

abbrev pub is_false : Option Bool → Bool
is_false (some false) = true
is_false _ = false

abbrev pub is_veto : Option GuardianVote → Bool
is_veto (some veto) = true
is_veto _ = false

abbrev pub is_slave : Option SwarmRole → Bool
is_slave (some slave) = true
is_slave _ = false

-- `requiresStructuredDroidspeak`
abbrev pub requires_structured_droidspeak : Option String → Bool
requires_structured_droidspeak none = false
requires_structured_droidspeak (some event_type) =
    event_type == "governance.proposal"
    || event_type == "governance.debate"
    || event_type == "governance.vote"
    || event_type == "governance.approval"
    || event_type == "federation.message"

abbrev pub droidspeak_law : GovernanceLawContext → List String
droidspeak_law c =
    if requires_structured_droidspeak c.event_type && not c.droidspeak_state
    then "Governance and federation-critical events require compact Droidspeak state." ∷ []
    else []

abbrev pub audit_law : GovernanceLawContext → List String
audit_law c =
    if is_false c.audit_logging_enabled
    then "Governance actions require tamper-evident audit logging." ∷ []
    else []

abbrev pub approval_law : GovernanceLawContext → List String
approval_law c =
    if is_text c.event_type "governance.activate-law" && not (is_true c.human_approval)
    then "Adaptive law activation requires explicit human approval." ∷ []
    else []

abbrev pub missing_roles : GovernanceLawContext → List String
missing_roles c =
    filter (λ role. not (has (get_or c.quorum_roles []) role))
      ("planner" ∷ "reviewer" ∷ "verifier" ∷ [])

abbrev pub missing_violation : List String → List String
missing_violation [] = []
missing_violation (r ∷ rs) =
    ("Governance quorum missing required roles: " <> join ", " (r ∷ rs) <> ".") ∷ []

abbrev pub quorum_law : GovernanceLawContext → List String
quorum_law c =
    if not (is_text c.event_type "governance.vote")
    then []
    else if is_veto c.guardian_vote
    then "Guardian veto prevents governance activation." ∷ []
    else missing_violation (missing_roles c)

abbrev pub slave_law : GovernanceLawContext → List String
slave_law c =
    (if is_slave c.swarm_role && is_true c.dashboard_enabled
      then "Slave swarms may not host the dashboard." ∷ []
      else [])
    ++ (if is_slave c.swarm_role && is_text c.actor_role "master"
        then "Slave swarms may not claim master governance authority." ∷ []
        else [])

abbrev pub radius_violation : Option Ratio → List String
radius_violation none = "OpenMythos tasks require a spectral radius measurement." ∷ []
radius_violation (some r) =
    if leb r.denominator r.numerator
    then "OpenMythos spectral radius is unstable (>= 1.0); halt and rollback required." ∷ []
    else []

abbrev pub spectral_law : GovernanceLawContext → List String
spectral_law c =
    if not (is_text c.recurrent_engine "openmythos") then [] else radius_violation c.spectral_radius

abbrev pub built_in_laws : List LawDefinition
built_in_laws =
    record {
      id = "LAW-001";
      version = "2026-04-24";
      title = "Droidspeak Required For Critical Internal Governance";
      description =
          "Governance and federation-critical events must preserve compact Droidspeak-compatible state.";
      glyph = "EVT-LAW-PROPOSAL";
      enforcement = droidspeak_law;
    }
    ∷ record {
      id = "LAW-002";
      version = "2026-04-24";
      title = "Tamper-Evident Audit Required";
      description = "Governance actions must always be auditable.";
      glyph = "EVT-COMPLIANCE-CHECK";
      enforcement = audit_law;
    }
    ∷ record {
      id = "LAW-003";
      version = "2026-04-24";
      title = "Human Approval Required";
      description = "Adaptive law changes must not activate without explicit admin approval.";
      glyph = "EVT-HUMAN-APPROVAL";
      enforcement = approval_law;
    }
    ∷ record {
      id = "LAW-004";
      version = "2026-04-24";
      title = "Debate Quorum And Guardian Protection";
      description =
          "System-changing debates require planner, reviewer, and verifier participation with guardian veto support.";
      glyph = "EVT-VOTE";
      enforcement = quorum_law;
    }
    ∷ record {
      id = "LAW-005";
      version = "2026-04-24";
      title = "Slave Governance Restrictions";
      description =
          "Slave swarms cannot host dashboard governance control or claim master authority.";
      glyph = "EVT-LAW-UPDATE";
      enforcement = slave_law;
    }
    ∷ record {
      id = "LAW-099";
      version = "2026-04-29";
      title = "Spectral Stability Of Recurrent Engines";
      description =
          "Recurrent engines must remain spectrally stable before high-complexity execution continues.";
      glyph = "MYTHOS_STATUS";
      enforcement = spectral_law;
    }
    ∷ []
