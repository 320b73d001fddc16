-- ===== src/Governance/Consensus.antt =====
-- The consensus round: packages/shared-governance/src/consensus-engine.ts, with the roles of
-- packages/shared-governance/src/roles.ts.
use droid_swarm.Prelude.{
  String, Bool, true, false, not, ◌&&◌, leb, if◌then◌else◌, any, filter, length, ◌<>◌, join, Option,
  none, some, List, [], ◌∷◌, map,
}
use droid_swarm.Governance.Laws.{GovernanceLawContext, is_text, is_true}
use droid_swarm.Governance.Compliance.{ComplianceReport, validate_compliance}
use droid_swarm.Governance.Store.{GovernanceStore, ConsensusRound, audited, record_consensus_round}

pub data Role : Type 0 where
  proposer reviewer verifier guardian arbitrator : Role

pub data Verdict : Type 0 where
  approve reject veto : Verdict

pub record GovernanceVerdictRecord : Type 0 where
  pub role : Role
  pub agent_id : String
  pub verdict : Verdict
  pub reason : String
  pub glyph : String

-- The name that a role has without a registered agent
abbrev pub default_agent : Role → String
default_agent proposer = "planner"
default_agent reviewer = "reviewer"
default_agent verifier = "verifier"
default_agent guardian = "guardian"
default_agent arbitrator = "arbiter"

-- `resolveConsensusAgentsForRole(role)[0]`, by the names of the active agents of the role
abbrev pub agent_for : (Role → List String) → Role → String
agent_for registered role = elim (registered role) [ [] ↦ default_agent role | a ∷ rest ↦ a ]

abbrev pub is_approve : Verdict → Bool
is_approve approve = true
is_approve _ = false

abbrev pub is_veto : Verdict → Bool
is_veto veto = true
is_veto _ = false

abbrev pub is_guardian : Role → Bool
is_guardian guardian = true
is_guardian _ = false

pub record ConsensusInput : Type 0 where
  pub proposal_type : String
  pub title : String
  pub summary : String
  pub glyph : String
  pub context : GovernanceLawContext
  pub human_override : Option Bool

-- The context that the round is checked in
abbrev pub vote_context : ConsensusInput → GovernanceLawContext
vote_context input = record input.context {
  event_type = some "governance.vote";
  quorum_roles = some (
      if is_text input.context.recurrent_engine "openmythos"
      then "planner" ∷ "reviewer" ∷ "verifier" ∷ "guardian" ∷ []
      else "planner" ∷ "reviewer" ∷ "verifier" ∷ []);
  droidspeak_state = true;
}

abbrev pub guardian_verdict : ConsensusInput → ComplianceReport → Verdict
guardian_verdict input compliance =
    if is_true input.human_override then approve else if compliance.ok then approve else veto

abbrev pub violation_text : ComplianceReport → String
violation_text compliance =
    join " "
      (map (λ entry. join " " entry.violations) (filter (λ entry. not entry.ok) compliance.laws))

abbrev pub build_verdict :
    (Role → List String) → Role → Verdict → String → String → GovernanceVerdictRecord
build_verdict registered role verdict reason glyph = record {
  role = role;
  agent_id = agent_for registered role;
  verdict = verdict;
  reason = reason;
  glyph = glyph;
}

unfoldable pub verdicts :
    (Role → List String) → ConsensusInput → ComplianceReport → List GovernanceVerdictRecord
verdicts registered input compliance =
    let vetoed = is_veto (guardian_verdict input compliance) in
    build_verdict registered proposer approve ("Proposer advances " <> input.proposal_type <> ".")
      "EVT-CONSENSUS-ROUND"
    ∷ build_verdict registered reviewer (if compliance.ok then approve else reject)
        (if compliance.ok
          then "Reviewer accepts the scoped change."
          else "Reviewer flags unresolved compliance risk.")
        "EVT-CONSENSUS-ROUND"
    ∷ build_verdict registered verifier (if compliance.ok then approve else reject)
        (if compliance.ok
          then "Verifier confirms current law compliance."
          else violation_text compliance)
        "EVT-CONSENSUS-ROUND"
    ∷ build_verdict registered guardian (guardian_verdict input compliance)
        (if vetoed
          then "Guardian veto due to compliance or safety violation."
          else "Guardian allows the action to proceed.")
        (if vetoed then "EVT-GUARDIAN-VETO" else "EVT-CONSENSUS-ROUND")
    ∷ build_verdict registered arbitrator (if vetoed then reject else approve)
        (if vetoed
          then "Arbitrator records the guardian veto."
          else "Arbitrator confirms quorum and finalizes approval.")
        "EVT-CONSENSUS-ROUND"
    ∷ []

abbrev pub vetoed_by_guardian : List GovernanceVerdictRecord → Bool
vetoed_by_guardian vs = any (λ entry. is_guardian entry.role && is_veto entry.verdict) vs

-- `approvedCount >= 3 && !guardianVeto`
abbrev pub approved_by : List GovernanceVerdictRecord → Bool
approved_by vs =
    leb 3 (length (filter (λ entry. is_approve entry.verdict) vs)) && not (vetoed_by_guardian vs)

-- `runConsensusRound`: the outcome that it returns and records, without the backend, hashes and
-- times
unfoldable pub run_consensus_round :
    (Role → List String)
    → String
    → String
    → ConsensusInput
    → GovernanceStore
    → GovernanceStore × ConsensusRound
run_consensus_round registered consensus_id proposal_id input store =
    let vs = verdicts registered input (validate_compliance (vote_context input) none store) in
    let round : ConsensusRound = record {
      consensus_id = consensus_id;
      proposal_id = proposal_id;
      approved = approved_by vs;
      guardian_veto = vetoed_by_guardian vs;
    } in
    (record_consensus_round round (audited "GOVERNANCE_CONSENSUS_ROUND" store), round)
