-- ===== src/Governance/Compliance.antt =====
-- Compliance with the laws: packages/shared-governance/src/compliance.ts.
use droid_swarm.Prelude.{
  truthy, get_or, if◌then◌else◌, ℕ, String, Bool, true, false, ◌==◌, all, find, length, filter,
  ◌<>◌, Option, none, some, List, [], ◌∷◌, ◌++◌, map,
}
use droid_swarm.Governance.Laws.{GovernanceLawContext, LawDefinition, built_in_laws}
use droid_swarm.Governance.Store.{RuntimeLaw, GovernanceStore, ProposalStatus, LawProposalRecord}

pub record LawEnforcementResult : Type 0 where
  pub law_id : String
  pub ok : Bool
  pub violations : List String

pub record ComplianceReport : Type 0 where
  pub ok : Bool
  pub laws : List LawEnforcementResult
  pub pending_proposal_count : ℕ

-- `listApprovedRuntimeLaws` and `buildRuntimeLaw`: a runtime law has no violations.
abbrev pub build_runtime_law : RuntimeLaw → LawDefinition
build_runtime_law law = record {
  id = law.id;
  version = law.version;
  title = law.title;
  description = law.description;
  glyph = law.glyph;
  enforcement = λ context. [];
}

-- `listActiveLaws`
abbrev pub list_active_laws : List RuntimeLaw → List LawDefinition
list_active_laws runtime = built_in_laws ++ map build_runtime_law runtime

abbrev pub none_left : List String → Bool
none_left [] = true
none_left (v ∷ vs) = false

-- What `enforceLaw` makes of the law that it found
abbrev pub enforcement_of :
    String → GovernanceLawContext → Option LawDefinition → LawEnforcementResult
enforcement_of law_id context none = record {
  law_id = law_id;
  ok = false;
  violations = ("Unknown law: " <> law_id) ∷ [];
}
enforcement_of law_id context (some law) = record {
  law_id = law_id;
  ok = none_left (law.enforcement context);
  violations = law.enforcement context;
}

-- `enforceLaw`; every built-in law is an active law, so the search among these alone adds nothing.
unfoldable pub enforce_law :
    List LawDefinition → String → GovernanceLawContext → LawEnforcementResult
enforce_law active law_id context =
    enforcement_of law_id context (find (λ law. law.id == law_id) active)

abbrev pub is_pending : LawProposalRecord → Bool
is_pending p = elim p.status [ ProposalStatus.pending ↦ true | _ ↦ false ]

-- The laws that a check is about: the one that is asked for, or all that are active
abbrev pub enforced :
    GovernanceLawContext → Option String → List RuntimeLaw → List LawEnforcementResult
enforced context law_id runtime =
    let active = list_active_laws runtime in
    if truthy law_id
    then enforce_law active (get_or law_id "") context ∷ []
    else map (λ law. enforce_law active law.id context) active

-- `validateCompliance`, without the hash of the laws and the time
unfoldable pub validate_compliance :
    GovernanceLawContext → Option String → GovernanceStore → ComplianceReport
validate_compliance context law_id store = record {
  ok = all (λ entry. entry.ok) (enforced context law_id store.approved_runtime_laws);
  laws = enforced context law_id store.approved_runtime_laws;
  pending_proposal_count = length (filter is_pending store.proposals);
}
