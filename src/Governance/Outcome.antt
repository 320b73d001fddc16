-- ===== src/Governance/Outcome.antt =====
-- What a debate decides, and what it leaves in the store
-- (packages/shared-governance/src/debate-engine.ts).
use droid_swarm.Prelude.{
  inl, inr, Bool-cases, String, Bool, true, false, ◌&&◌, ◌||◌, if◌then◌else◌, get_or, Option, none,
  some, List, ◌≡◌, refl, ap, ◌∙◌, eq_refl,
}
use droid_swarm.Prelude.Sets.{has}
use droid_swarm.Governance.Laws.{GuardianVote, approve, is_veto, is_true, is_text}
use droid_swarm.Governance.Store.{
  ProposalStatus, GovernanceStore, create_law_proposal, find_proposal,
  record_governance_debate_timestamp, record_consensus_round,
}
use droid_swarm.Governance.Compliance.{validate_compliance}
use droid_swarm.Governance.Consensus.{Role, run_consensus_round, vote_context}
use droid_swarm.Governance.Verdict.{
  lawful, validate_compliance-lawful, run_consensus_round-approved,
}
use droid_swarm.Governance.Debate.{
  DebateInput, audit_rounds, debate_rounds, rejected, pending_human_approval, debate_context,
  consensus_of, proposal_of, run_governance_debate,
}

kept_veto : (vote : Option GuardianVote) → is_veto (some (get_or vote approve)) ≡ is_veto vote
kept_veto none = refl
kept_veto (some vote) = refl

or_true : (b : Bool) → (b || true) ≡ true
or_true true = refl
or_true false = refl

-- The debate's own check and the check of its consensus round agree.
same_context :
    (input : DebateInput)
    → lawful (debate_context input) ≡ lawful (vote_context (consensus_of input))
unfolding has
same_context input =
    let e = kept_veto input.context.guardian_vote in
    elim (Bool-cases (is_text input.context.recurrent_engine "openmythos")) [
      | inl mythos ↦ rw (e, or_true (is_true input.context.human_approval), mythos) refl
      | inr plain ↦ rw (e, or_true (is_true input.context.human_approval), plain) refl
    ]

both : (b c d : Bool) → b ≡ d → c ≡ d → (b && c) ≡ d
both true c d p q = q
both false c d p q = p

-- A debate goes on to human approval exactly when the vote of its consensus round is lawful by the
-- built-in laws. In either case its proposal stands in the store as pending, also when it is
-- rejected.
pub run_governance_debate-status :
    (registered : Role → List String) (backend now debate_id proposal_id consensus_id : String)
    (input : DebateInput) (store : GovernanceStore)
    → let result =
        run_governance_debate registered backend now debate_id proposal_id consensus_id input
          store in
      (result.1.status
        ≡ (if lawful (vote_context (consensus_of input)) then pending_human_approval else rejected))
      × (find_proposal proposal_id result.0.proposals ≡ some result.1.proposal)
      × (result.1.proposal.status ≡ ProposalStatus.pending)
unfolding run_governance_debate create_law_proposal run_consensus_round record_consensus_round
run_governance_debate-status registered backend now debate_id proposal_id consensus_id input store =
    let proposed = create_law_proposal now proposal_id (proposal_of debate_id input) store in
    let debated =
      record_governance_debate_timestamp now (audit_rounds (debate_rounds input) proposed) in
    (
      ap (λ b. if b then pending_human_approval else rejected)
          (both (validate_compliance (debate_context input) none proposed).ok
            (run_consensus_round registered consensus_id proposal_id (consensus_of input)
              debated).1.approved
            (lawful (vote_context (consensus_of input)))
            (validate_compliance-lawful (debate_context input) proposed ∙ same_context input)
            (run_consensus_round-approved registered consensus_id proposal_id (consensus_of input)
              debated).0),
      rw (eq_refl proposal_id) refl,
      refl,
    )
