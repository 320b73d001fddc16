-- ===== src/Governance/Proposals.antt =====
-- What the operations of the store keep (packages/shared-governance/src/proposal-store.ts).
use droid_swarm.Prelude.{
  ◌≤◌, String, Bool, true, false, not, ◌&&◌, ◌||◌, ◌==◌, any, All, length, length-take, Option,
  none, some, List, [], ◌∷◌, ◌++◌, ◌≡◌, refl, sym, subst, ap, ◌∙◌, inl, inr, arith, eq_iff,
  Bool-cases,
}
use droid_swarm.Prelude.Rows.{All-implies}
use droid_swarm.Governance.Store.{
  ProposalStatus, approved, rejected, LawProposalRecord, RuntimeLaw, DriftSnapshotRecord,
  ConsensusRound, GovernanceStore, default_store, ProposalInput, create_law_proposal, decide,
  find_proposal, push_law, law_of, approve_found, reject_found, approve_law_proposal,
  override_law_proposal, reject_law_proposal, record_governance_debate_timestamp,
  record_consensus_round, record_drift_snapshot,
}

-- What is done to the store. An operation on an unknown proposal throws and writes nothing.
pub data Operation : Type 0 where
  create : String → String → ProposalInput → Operation
  approve : String → String → String → Option String → Operation
  override : String → String → String → String → Option String → Operation
  reject : String → String → Option String → Operation
  debate : String → Operation
  consensus : ConsensusRound → Operation
  drift : DriftSnapshotRecord → Operation

abbrev or_same : Option GovernanceStore → GovernanceStore → GovernanceStore
or_same none store = store
or_same (some changed) store = changed

unfoldable pub perform : Operation → GovernanceStore → GovernanceStore
perform (create now id input) store = create_law_proposal now id input store
perform (approve now day id comment) store =
    or_same (approve_law_proposal now day id comment store) store
perform (override now day id by comment) store =
    or_same (override_law_proposal now day id by comment store) store
perform (reject now id comment) store = or_same (reject_law_proposal now id comment store) store
perform (debate ts) store = record_governance_debate_timestamp ts store
perform (consensus round) store = record_consensus_round round store
perform (drift snapshot) store = record_drift_snapshot snapshot store

unfoldable pub perform_all : List Operation → GovernanceStore → GovernanceStore
perform_all [] store = store
perform_all (o ∷ os) store = perform_all os (perform o store)

-- No id stands twice among the runtime laws.
abbrev pub IdsApart : List RuntimeLaw → Type 0
IdsApart [] = Unit
IdsApart (l ∷ ls) = (any (λ e. e.id == l.id) ls ≡ false) × IdsApart ls

abbrev pub is_approved : ProposalStatus → Bool
is_approved approved = true
is_approved _ = false

-- The law of an approved proposal is among the runtime laws.
abbrev pub IsEnacted : List RuntimeLaw → LawProposalRecord → Type 0
IsEnacted laws p = (is_approved p.status && not (any (λ e. e.id == p.law_id) laws)) ≡ false

abbrev pub IsStore : GovernanceStore → Type 0
IsStore store =
    IdsApart store.approved_runtime_laws
    × All (IsEnacted store.approved_runtime_laws) store.proposals
    × (length store.consensus_rounds ≤ 200)
    × (length store.drift_snapshots ≤ 200)

any-end :
    (p : RuntimeLaw → Bool) (ls : List RuntimeLaw) (l : RuntimeLaw)
    → any p (ls ++ (l ∷ [])) ≡ (any p ls || p l)
any-end p [] l = ground arith
any-end p (e ∷ ls) l = ground (arith, any-end p ls l)

append-IdsApart :
    (ls : List RuntimeLaw) (l : RuntimeLaw)
    → any (λ e. e.id == l.id) ls ≡ false
    → IdsApart ls
    → IdsApart (ls ++ (l ∷ []))
append-IdsApart [] l free apart = (refl, tt)
append-IdsApart (e ∷ ls) l free apart = (
  any-end (λ x. x.id == e.id) ls l
      ∙ ground (arith, free, apart.0, eq_iff l.id e.id, eq_iff e.id l.id),
  append-IdsApart ls l (ground (arith, free)) apart.1,
)

push_law-IdsApart : (l : RuntimeLaw) (ls : List RuntimeLaw) → IdsApart ls → IdsApart (push_law l ls)
push_law-IdsApart l ls apart = elim (Bool-cases (any (λ e. e.id == l.id) ls)) [
  | inl there ↦ rw there apart
  | inr free ↦ rw free (append-IdsApart ls l free apart)
]

-- A law that is pushed is there, and a law that was there stays.
push_law-any :
    (l : RuntimeLaw) (ls : List RuntimeLaw) (id : String)
    → any (λ e. e.id == id) (push_law l ls) ≡ (any (λ e. e.id == id) ls || l.id == id)
push_law-any l ls id = elim (Bool-cases (any (λ e. e.id == l.id) ls)) [
  | inl there ↦ rw there (elim (Bool-cases (l.id == id)) [
    | inl same ↦
        rw same (
          subst (λ i. any (λ e. e.id == i) ls ≡ true) ((eq_iff l.id id).0 same) there
          ∙ ground arith)
    | inr other ↦ rw other (ground arith)
  ])
  | inr free ↦ rw free (any-end (λ e. e.id == id) ls l)
]

push_law-IsEnacted :
    (l : RuntimeLaw) (ls : List RuntimeLaw) (p : LawProposalRecord)
    → IsEnacted ls p
    → IsEnacted (push_law l ls) p
push_law-IsEnacted l ls p h = ground (arith, h, push_law-any l ls p.law_id)

decide-approved :
    (now day id : String) (comment : Option String) (ps : List LawProposalRecord)
    (ls : List RuntimeLaw) (found : LawProposalRecord)
    → find_proposal id ps ≡ some found
    → All (IsEnacted ls) ps
    → All (IsEnacted (push_law (law_of day found) ls)) (decide now id approved comment ps)
unfolding decide
decide-approved now day id comment [] ls found h enacted = tt
decide-approved now day id comment (p ∷ ps) ls found h enacted =
    elim (Bool-cases (p.proposal_id == id)) [
      | inl same ↦ rw same (
        enacted_now (ground (arith, h, same)),
        All-implies (IsEnacted ls) (push_law-IsEnacted (law_of day found) ls) ps enacted.1,
      )
      | inr other ↦ rw other (
        push_law-IsEnacted (law_of day found) ls p enacted.0,
        decide-approved now day id comment ps ls found (ground (arith, h, other)) enacted.1,
      )
    ]
  where
    enacted_now :
        p ≡ found → not (any (λ e. e.id == p.law_id) (push_law (law_of day found) ls)) ≡ false
    enacted_now first =
        let same_law = ap (λ x. x.law_id) first in
        ground (
          arith,
          push_law-any (law_of day found) ls p.law_id,
          eq_iff found.law_id p.law_id,
          sym same_law,
        )

decide-rejected :
    (now id : String) (comment : Option String) (ps : List LawProposalRecord) (ls : List RuntimeLaw)
    → All (IsEnacted ls) ps
    → All (IsEnacted ls) (decide now id rejected comment ps)
unfolding decide
decide-rejected now id comment [] ls enacted = tt
decide-rejected now id comment (p ∷ ps) ls enacted = elim (Bool-cases (p.proposal_id == id)) [
  | inl same ↦ rw same (refl, enacted.1)
  | inr other ↦ rw other (enacted.0, decide-rejected now id comment ps ls enacted.1)
]

approve-IsStore :
    (now day id : String) (comment : Option String) (store : GovernanceStore)
    → IsStore store
    → IsStore (or_same (approve_law_proposal now day id comment store) store)
unfolding approve_law_proposal
approve-IsStore now day id comment store h = go (find_proposal id store.proposals) refl
  where
    go :
        (o : Option LawProposalRecord)
        → find_proposal id store.proposals ≡ o
        → IsStore (or_same (approve_found now day id comment store o) store)
    go none gone = h
    go (some p) found = (
      push_law-IdsApart (law_of day p) store.approved_runtime_laws h.0,
      decide-approved now day id comment store.proposals store.approved_runtime_laws p found h.1,
      h.2,
      h.3,
    )

reject-IsStore :
    (now id : String) (comment : Option String) (store : GovernanceStore)
    → IsStore store
    → IsStore (or_same (reject_law_proposal now id comment store) store)
unfolding reject_law_proposal
reject-IsStore now id comment store h = go (find_proposal id store.proposals)
  where
    go :
        (o : Option LawProposalRecord)
        → IsStore (or_same (reject_found now id comment store o) store)
    go none = h
    go (some p) = (
      h.0,
      decide-rejected now id comment store.proposals store.approved_runtime_laws h.1,
      h.2,
      h.3,
    )

perform-IsStore :
    (o : Operation) (store : GovernanceStore) → IsStore store → IsStore (perform o store)
unfolding perform create_law_proposal record_consensus_round record_drift_snapshot
perform-IsStore (create now id input) store h = (h.0, (refl, h.1), h.2, h.3)
perform-IsStore (approve now day id comment) store h = approve-IsStore now day id comment store h
perform-IsStore (override now day id by comment) store h = approve-IsStore now day id _ store h
perform-IsStore (reject now id comment) store h = reject-IsStore now id comment store h
perform-IsStore (debate ts) store h = h
perform-IsStore (consensus round) store h =
    (h.0, h.1, omega (arith, length-take 200 (round ∷ store.consensus_rounds)), h.3)
perform-IsStore (drift snapshot) store h =
    (h.0, h.1, h.2, omega (arith, length-take 200 (snapshot ∷ store.drift_snapshots)))

perform_all-keeps :
    (os : List Operation) (store : GovernanceStore) → IsStore store → IsStore (perform_all os store)
unfolding perform_all
perform_all-keeps [] store h = h
perform_all-keeps (o ∷ os) store h =
    perform_all-keeps os (perform o store) (perform-IsStore o store h)

-- After any operations on the empty store no two runtime laws have one id, the law of every
-- approved proposal is a runtime law, and at most 200 rounds and 200 snapshots are kept.
pub perform_all-IsStore : (os : List Operation) → IsStore (perform_all os default_store)
perform_all-IsStore os = perform_all-keeps os default_store (tt, tt, omega arith, omega arith)
