-- ===== src/Governance/Store.antt =====
-- The store of packages/shared-governance/src/proposal-store.ts. The file is read and written whole
-- by each operation; a file that cannot be read is the empty store.
use droid_swarm.Prelude.{
  String, Bool, ◌==◌, if◌then◌else◌, any, find, take, get_or, ◌<>◌, Option, none, some, List, [],
  ◌∷◌, ◌++◌,
}

pub data ProposalStatus : Type 0 where
  pending approved rejected : ProposalStatus

pub record LawProposalRecord : Type 0 where
  pub proposal_id : String
  pub law_id : String
  pub title : String
  pub description : String
  pub rationale : String
  pub glyph : String
  pub proposed_by : String
  pub status : ProposalStatus
  pub debate_id : Option String
  pub approval_comment : Option String
  pub created_at : String
  pub updated_at : String

-- A runtime law as it is stored, without its enforcement
pub record RuntimeLaw : Type 0 where
  pub id : String
  pub version : String
  pub title : String
  pub description : String
  pub glyph : String

pub record DriftSnapshotRecord : Type 0 where
  pub node_id : String
  pub project_id : String
  pub local_hash : String
  pub remote_hash : Option String
  pub matches : Bool
  pub source : Option String
  pub audit_hash : Option String
  pub created_at : String

-- A round of consensus in the store, by its id and its outcome
pub record ConsensusRound : Type 0 where
  pub consensus_id : String
  pub proposal_id : String
  pub approved : Bool
  pub guardian_veto : Bool

-- `GovernanceStore`, and the types of the audit events that its operations append
pub record GovernanceStore : Type 0 where
  pub proposals : List LawProposalRecord
  pub approved_runtime_laws : List RuntimeLaw
  pub consensus_rounds : List ConsensusRound
  pub drift_snapshots : List DriftSnapshotRecord
  pub latest_debate_at : Option String
  pub audit_events : List String

abbrev pub default_store : GovernanceStore
default_store = record {
  proposals = [];
  approved_runtime_laws = [];
  consensus_rounds = [];
  drift_snapshots = [];
  latest_debate_at = none;
  audit_events = [];
}

-- `appendAuditEvent`, by the type of the event
abbrev pub audited : String → GovernanceStore → GovernanceStore
audited event store = record store { audit_events = store.audit_events ++ (event ∷ []) }

pub record ProposalInput : Type 0 where
  pub law_id : String
  pub title : String
  pub description : String
  pub rationale : String
  pub glyph : String
  pub proposed_by : String
  pub debate_id : Option String

-- The pending proposal that `createLawProposal` makes, with the id that `randomUUID` gives
abbrev pub new_proposal : String → String → ProposalInput → LawProposalRecord
new_proposal now proposal_id input = record {
  proposal_id = proposal_id;
  law_id = input.law_id;
  title = input.title;
  description = input.description;
  rationale = input.rationale;
  glyph = input.glyph;
  proposed_by = input.proposed_by;
  status = pending;
  debate_id = input.debate_id;
  approval_comment = none;
  created_at = now;
  updated_at = now;
}

-- `createLawProposal`
unfoldable pub create_law_proposal :
    String → String → ProposalInput → GovernanceStore → GovernanceStore
create_law_proposal now proposal_id input store =
    audited "GOVERNANCE_PROPOSAL_CREATED"
      (record store { proposals = new_proposal now proposal_id input ∷ store.proposals })

-- The first proposal of the id is decided; the array holds the object that was found.
unfoldable pub decide :
    String
    → String
    → ProposalStatus
    → Option String
    → List LawProposalRecord
    → List LawProposalRecord
decide now proposal_id status comment [] = []
decide now proposal_id status comment (p ∷ ps) =
    let rest = decide now proposal_id status comment ps in
    if p.proposal_id == proposal_id
    then record p { status = status; approval_comment = comment; updated_at = now } ∷ ps
    else p ∷ rest

abbrev pub find_proposal : String → List LawProposalRecord → Option LawProposalRecord
find_proposal proposal_id ps = find (λ p. p.proposal_id == proposal_id) ps

-- `if (!laws.some((entry) => entry.id === law.id)) laws.push(law)`
abbrev pub push_law : RuntimeLaw → List RuntimeLaw → List RuntimeLaw
push_law law laws = if any (λ entry. entry.id == law.id) laws then laws else laws ++ (law ∷ [])

-- `updatedAt.slice(0, 10)` is a parameter of the operations, the day of their time.
abbrev pub law_of : String → LawProposalRecord → RuntimeLaw
law_of day p = record {
  id = p.law_id;
  version = day;
  title = p.title;
  description = p.description;
  glyph = p.glyph;
}

-- `approveLawProposal` with the proposal that it finds; an unknown id is an exception.
-- SYSTEM_LAWS.md is not modelled.
abbrev pub approve_found :
    String
    → String
    → String
    → Option String
    → GovernanceStore
    → Option LawProposalRecord
    → Option GovernanceStore
approve_found now day proposal_id comment store none = none
approve_found now day proposal_id comment store (some proposal) = some (
    audited "GOVERNANCE_PROPOSAL_APPROVED" (record store {
      proposals = decide now proposal_id approved comment store.proposals;
      approved_runtime_laws = push_law (law_of day proposal) store.approved_runtime_laws;
    }))

unfoldable pub approve_law_proposal :
    String → String → String → Option String → GovernanceStore → Option GovernanceStore
approve_law_proposal now day proposal_id comment store =
    approve_found now day proposal_id comment store (find_proposal proposal_id store.proposals)

-- `overrideLawProposal`
abbrev pub override_law_proposal :
    String → String → String → String → Option String → GovernanceStore → Option GovernanceStore
override_law_proposal now day proposal_id overridden_by comment =
    approve_law_proposal now day proposal_id
      (some (get_or comment ("Human override by " <> overridden_by <> ".")))

-- `rejectLawProposal` with the proposal that it finds
abbrev pub reject_found :
    String
    → String
    → Option String
    → GovernanceStore
    → Option LawProposalRecord
    → Option GovernanceStore
reject_found now proposal_id comment store none = none
reject_found now proposal_id comment store (some proposal) = some (
    audited "GOVERNANCE_PROPOSAL_REJECTED"
      (record store { proposals = decide now proposal_id rejected comment store.proposals }))

unfoldable pub reject_law_proposal :
    String → String → Option String → GovernanceStore → Option GovernanceStore
reject_law_proposal now proposal_id comment store =
    reject_found now proposal_id comment store (find_proposal proposal_id store.proposals)

-- `recordGovernanceDebateTimestamp`
abbrev pub record_governance_debate_timestamp : String → GovernanceStore → GovernanceStore
record_governance_debate_timestamp ts store = record store { latest_debate_at = some ts }

-- `recordConsensusRound`
unfoldable pub record_consensus_round : ConsensusRound → GovernanceStore → GovernanceStore
record_consensus_round round store = record store {
  consensus_rounds = take 200 (round ∷ store.consensus_rounds);
}

-- `recordDriftSnapshot`
unfoldable pub record_drift_snapshot : DriftSnapshotRecord → GovernanceStore → GovernanceStore
record_drift_snapshot snapshot store = record store {
  drift_snapshots = take 200 (snapshot ∷ store.drift_snapshots);
}
