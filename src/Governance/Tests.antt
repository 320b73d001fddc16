-- ===== src/Governance/Tests.antt =====
-- Governance at concrete contexts and stores, and its theorems there.
use droid_swarm.Prelude.{
  String, if◌then◌else◌, true, false, not, ◌||◌, Option, none, some, List, [], ◌∷◌, ◌≡◌, refl,
}
use droid_swarm.Prelude.Sets.{has}
use droid_swarm.Governance.Laws.{GovernanceLawContext, is_true, GuardianVote}
use droid_swarm.Governance.Store.{
  ProposalStatus, find_proposal, GovernanceStore, ProposalInput, default_store,
  record_consensus_round, audited, approve_law_proposal, create_law_proposal, decide,
}
use droid_swarm.Governance.Compliance.{validate_compliance, enforce_law}
use droid_swarm.Governance.Consensus.{
  Role, ConsensusInput, vote_context, run_consensus_round, verdicts,
}
use droid_swarm.Governance.Verdict.{
  lawful, validate_compliance-lawful, run_consensus_round-approved,
}
use droid_swarm.Governance.Debate.{
  DebateInput, rejected, pending_human_approval, consensus_of, run_governance_debate,
}
use droid_swarm.Governance.Outcome.{run_governance_debate-status}
use droid_swarm.Governance.Proposals.{
  Operation, create, approve, reject, perform, perform_all, IsStore, perform_all-IsStore,
}

abbrev context : Option GuardianVote → GovernanceLawContext
context vote = record {
  event_type = none;
  actor_role = none;
  swarm_role = none;
  audit_logging_enabled = some true;
  dashboard_enabled = none;
  human_approval = none;
  droidspeak_state = false;
  quorum_roles = none;
  guardian_vote = vote;
  recurrent_engine = none;
  spectral_radius = none;
}

abbrev proposal : ProposalInput
proposal = record {
  law_id = "LAW-200";
  title = "Small changes";
  description = "Keep changes small.";
  rationale = "Reviews.";
  glyph = "EVT-LAW-PROPOSAL";
  proposed_by = "planner";
  debate_id = none;
}

abbrev operations : List Operation
operations =
    create "1" "a" proposal
    ∷ create "2" "b" proposal
    ∷ approve "3" "day" "a" none
    ∷ reject "4" "a" none
    ∷ approve "5" "day" "b" none
    ∷ approve "6" "day" "missing" none
    ∷ []

abbrev enacted : GovernanceStore
enacted = perform_all operations default_store

perform_all-IsStore_example : IsStore (perform_all operations default_store)
perform_all-IsStore_example = perform_all-IsStore operations

abbrev input : Option GuardianVote → ConsensusInput
input vote = record {
  proposal_type = "law-change";
  title = "Small changes";
  summary = "Keep changes small.";
  glyph = "EVT-LAW-PROPOSAL";
  context = context vote;
  human_override = none;
}

abbrev nobody : Role → List String
nobody role = []

-- The guardian's veto turns a round down, and without it the round is approved.
vetoed :
    (run_consensus_round nobody "c" "a" (input (some GuardianVote.veto)) enacted).1.guardian_veto
    ≡ true
unfolding run_consensus_round verdicts validate_compliance enforce_law perform_all perform
    create_law_proposal approve_law_proposal decide
vetoed = refl

carried : (run_consensus_round nobody "c" "a" (input none) default_store).1.approved ≡ true
unfolding run_consensus_round verdicts validate_compliance enforce_law has
carried = refl

validate_compliance-lawful_example :
    (validate_compliance (context none) none enacted).ok ≡ lawful (context none)
validate_compliance-lawful_example = validate_compliance-lawful (context none) enacted

run_consensus_round-approved_example :
    let result = run_consensus_round nobody "c" "a" (input none) enacted in
    (result.1.approved
      ≡ (is_true (input none).human_override || lawful (vote_context (input none))))
    × (result.1.guardian_veto ≡ not result.1.approved)
    × (result.0 ≡ record_consensus_round result.1 (audited "GOVERNANCE_CONSENSUS_ROUND" enacted))
run_consensus_round-approved_example =
    run_consensus_round-approved nobody "c" "a" (input none) enacted

abbrev debate : DebateInput
debate = record {
  law_id = "LAW-200";
  title = "Small changes";
  description = "Keep changes small.";
  rationale = "Reviews.";
  glyph = "EVT-LAW-PROPOSAL";
  proposed_by = "planner";
  context = context (some GuardianVote.veto);
}

run_governance_debate-status_example :
    let result = run_governance_debate nobody "mlx" "now" "d" "p" "c" debate enacted in
    (result.1.status
      ≡ (if lawful (vote_context (consensus_of debate)) then pending_human_approval else rejected))
    × (find_proposal "p" result.0.proposals ≡ some result.1.proposal)
    × (result.1.proposal.status ≡ ProposalStatus.pending)
run_governance_debate-status_example =
    run_governance_debate-status nobody "mlx" "now" "d" "p" "c" debate enacted
