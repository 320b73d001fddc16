-- ===== src/Governance/Debate.antt =====
-- The debate about a law: packages/shared-governance/src/debate-engine.ts.
use droid_swarm.Prelude.{
  ℕ, String, Bool, true, false, ◌&&◌, if◌then◌else◌, get_or, ◌<>◌, none, some, List, [], ◌∷◌,
}
use droid_swarm.Governance.Laws.{GovernanceLawContext, GuardianVote, is_veto}
use droid_swarm.Governance.Store.{
  LawProposalRecord, ProposalInput, new_proposal, GovernanceStore, audited, create_law_proposal,
  record_governance_debate_timestamp,
}
use droid_swarm.Governance.Compliance.{validate_compliance}
use droid_swarm.Governance.Consensus.{Role, ConsensusInput, run_consensus_round}

pub data Debater : Type 0 where
  planner reviewer verifier guardian : Debater

pub data Stance : Type 0 where
  for against neutral : Stance

pub record DebateParticipant : Type 0 where
  pub role : Debater
  pub stance : Stance
  pub argument : String

pub data DebateStage : Type 0 where
  proposal arguments rebuttals vote : DebateStage

pub record DebateRoundRecord : Type 0 where
  pub round : ℕ
  pub stage : DebateStage
  pub participants : List DebateParticipant
  pub glyph : String
  pub english : String

pub data DebateStatus : Type 0 where
  rejected pending_human_approval : DebateStatus

pub record DebateInput : Type 0 where
  pub law_id : String
  pub title : String
  pub description : String
  pub rationale : String
  pub glyph : String
  pub proposed_by : String
  pub context : GovernanceLawContext

pub record DebateResult : Type 0 where
  pub debate_id : String
  pub proposal_id : String
  pub backend : String
  pub status : DebateStatus
  pub rounds : List DebateRoundRecord
  pub quorum_roles : List String
  pub guardian_vote : GuardianVote
  pub proposal : LawProposalRecord
  pub consensus_id : String

abbrev participant : Debater → Stance → String → DebateParticipant
participant role stance argument = record { role = role; stance = stance; argument = argument }

-- `buildArguments`
abbrev pub build_arguments : String → String → List DebateParticipant
build_arguments title rationale =
    participant planner for
      ("Planner: " <> title <> " creates explicit system intent. " <> rationale)
    ∷ participant reviewer against
        ("Reviewer: " <> title <> " must stay minimal and avoid silent behavior drift.")
    ∷ participant verifier neutral
        "Verifier: activation is acceptable only if existing law compliance remains intact and testable."
    ∷ []

-- `buildRebuttals`
abbrev pub build_rebuttals : String → List DebateParticipant
build_rebuttals title =
    participant planner for
      ("Planner rebuttal: " <> title <> " is scoped and still requires human approval.")
    ∷ participant reviewer against "Reviewer rebuttal: scope must remain auditable and reversible."
    ∷ participant verifier for
        "Verifier rebuttal: structured approval plus audit logging preserves safety."
    ∷ []

abbrev pub guardian_vote_of : DebateInput → GuardianVote
guardian_vote_of input = get_or input.context.guardian_vote GuardianVote.approve

abbrev pub vote_participants : Bool → List DebateParticipant
vote_participants vetoed =
    participant planner for "Planner votes to continue."
    ∷ participant reviewer (if vetoed then against else for) (
        if vetoed
        then "Guardian veto triggered due to law risk."
        else "Reviewer accepts with human approval.")
    ∷ participant verifier for "Verifier confirms the proposal can remain pending human approval."
    ∷ participant guardian (if vetoed then against else for)
        (if vetoed then "Guardian veto." else "Guardian allows human review.")
    ∷ []

-- The context that the debate is checked in
abbrev pub debate_context : DebateInput → GovernanceLawContext
debate_context input = record input.context {
  event_type = some "governance.vote";
  quorum_roles = some ("planner" ∷ "reviewer" ∷ "verifier" ∷ []);
  guardian_vote = some (guardian_vote_of input);
  human_approval = some false;
  droidspeak_state = true;
}

abbrev pub debate_rounds : DebateInput → List DebateRoundRecord
debate_rounds input =
    record {
      round = 1;
      stage = arguments;
      participants = build_arguments input.title input.rationale;
      glyph = "EVT-DEBATE-ROUND";
      english = "Round 1 debate for " <> input.law_id <> ".";
    }
    ∷ record {
      round = 2;
      stage = rebuttals;
      participants = build_rebuttals input.title;
      glyph = "EVT-DEBATE-ROUND";
      english = "Round 2 rebuttals for " <> input.law_id <> ".";
    }
    ∷ record {
      round = 3;
      stage = vote;
      participants = vote_participants (is_veto (some (guardian_vote_of input)));
      glyph = "EVT-VOTE";
      english = "Final vote for " <> input.law_id <> ".";
    }
    ∷ []

abbrev pub audit_rounds : List DebateRoundRecord → GovernanceStore → GovernanceStore
audit_rounds [] store = store
audit_rounds (r ∷ rs) store = audit_rounds rs (audited "GOVERNANCE_DEBATE_ROUND" store)

abbrev pub proposal_of : String → DebateInput → ProposalInput
proposal_of debate_id input = record {
  law_id = input.law_id;
  title = input.title;
  description = input.description;
  rationale = input.rationale;
  glyph = input.glyph;
  proposed_by = input.proposed_by;
  debate_id = some debate_id;
}

abbrev pub consensus_of : DebateInput → ConsensusInput
consensus_of input = record {
  proposal_type = "law-change";
  title = input.title;
  summary = input.description;
  glyph = input.glyph;
  context = record input.context { event_type = some "governance.vote" };
  human_override = none;
}

-- `runGovernanceDebate`, with the ids that `randomUUID` gives and the backend that
-- `chooseBackendDecision` picks
unfoldable pub run_governance_debate :
    (Role → List String)
    → String
    → String
    → String
    → String
    → String
    → DebateInput
    → GovernanceStore
    → GovernanceStore × DebateResult
run_governance_debate registered backend now debate_id proposal_id consensus_id input store =
    let proposed = create_law_proposal now proposal_id (proposal_of debate_id input) store in
    let compliance = validate_compliance (debate_context input) none proposed in
    let debated =
      record_governance_debate_timestamp now (audit_rounds (debate_rounds input) proposed) in
    let consensus =
      run_consensus_round registered consensus_id proposal_id (consensus_of input) debated in
    (
      audited "GOVERNANCE_DEBATE_RESULT" consensus.0,
      record {
        debate_id = debate_id;
        proposal_id = proposal_id;
        backend = backend;
        status = if compliance.ok && consensus.1.approved then pending_human_approval else rejected;
        rounds = debate_rounds input;
        quorum_roles = "planner" ∷ "reviewer" ∷ "verifier" ∷ [];
        guardian_vote = guardian_vote_of input;
        proposal = new_proposal now proposal_id (proposal_of debate_id input);
        consensus_id = consensus_id;
      },
    )
