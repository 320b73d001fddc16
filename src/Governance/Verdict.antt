-- ===== src/Governance/Verdict.antt =====
-- When a consensus round approves, and what runtime laws add to a check
-- (packages/shared-governance/src/consensus-engine.ts, packages/shared-governance/src/compliance.ts).
use droid_swarm.Prelude.{
  String, Bool, true, false, not, ◌&&◌, ◌||◌, ◌==◌, leb, if◌then◌else◌, all, find, All, All-append,
  get_or, Option, none, some, List, [], ◌∷◌, ◌++◌, map, ◌≡◌, refl, sym, ap, ◌∙◌, inl, inr, arith,
  Bool-cases, eq_iff,
}
use mathlib.Core.List.{Memᴰ}
use mathlib.Core.List.Memᴰ
use droid_swarm.Prelude.Rows.{members}
use droid_swarm.Prelude.Sets.{has}
use droid_swarm.Governance.Laws.{
  GovernanceLawContext, LawDefinition, built_in_laws, Ratio, is_text, is_true, is_false, is_veto,
  is_slave, requires_structured_droidspeak, quorum_law, spectral_law,
}
use droid_swarm.Governance.Store.{RuntimeLaw, GovernanceStore, audited, record_consensus_round}
use droid_swarm.Governance.Compliance.{
  ComplianceReport, LawEnforcementResult, none_left, build_runtime_law, list_active_laws,
  enforcement_of, enforce_law, validate_compliance,
}
use droid_swarm.Governance.Consensus.{
  Role, ConsensusInput, vote_context, verdicts, approved_by, vetoed_by_guardian,
  run_consensus_round,
}

-- The measured radius is there and below one.
abbrev pub stable : Option Ratio → Bool
stable none = false
stable (some r) = not (leb r.denominator r.numerator)

abbrev pub has_quorum : List String → Bool
has_quorum roles = has roles "planner" && has roles "reviewer" && has roles "verifier"

-- What the built-in laws ask for, said as one condition
abbrev pub lawful : GovernanceLawContext → Bool
lawful c =
    (c.droidspeak_state || not (requires_structured_droidspeak c.event_type))
    && not (is_false c.audit_logging_enabled)
    && (is_true c.human_approval || not (is_text c.event_type "governance.activate-law"))
    && (not (is_text c.event_type "governance.vote")
        || (not (is_veto c.guardian_vote) && has_quorum (get_or c.quorum_roles [])))
    && not (is_slave c.swarm_role && is_true c.dashboard_enabled)
    && not (is_slave c.swarm_role && is_text c.actor_role "master")
    && (not (is_text c.recurrent_engine "openmythos") || stable c.spectral_radius)

quorum-lawful :
    (c : GovernanceLawContext)
    → none_left (quorum_law c) ≡ (
        not (is_text c.event_type "governance.vote")
        || (not (is_veto c.guardian_vote) && has_quorum (get_or c.quorum_roles [])))
quorum-lawful c = ground arith

-- A law with one violation is kept exactly when its test fails.
one_violation : (b : Bool) (text : String) → none_left (if b then text ∷ [] else []) ≡ not b
one_violation true text = refl
one_violation false text = refl

two_violations :
    (a b : Bool) (s t : String)
    → none_left ((if a then s ∷ [] else []) ++ (if b then t ∷ [] else [])) ≡ (not a && not b)
two_violations true b s t = refl
two_violations false b s t = one_violation b t

not-and-not : (a b : Bool) → not (a && not b) ≡ (b || not a)
not-and-not true true = refl
not-and-not true false = refl
not-and-not false true = refl
not-and-not false false = refl

spectral-lawful :
    (c : GovernanceLawContext)
    → none_left (spectral_law c)
      ≡ (not (is_text c.recurrent_engine "openmythos") || stable c.spectral_radius)
spectral-lawful c = ground arith

regroup :
    (a b d e f g h : Bool)
    → (a && (b && (d && (e && ((f && g) && (h && true)))))) ≡ (a && b && d && e && f && g && h)
regroup true b d e f g h = ground arith
regroup false b d e f g h = refl

built_in_ok : GovernanceLawContext → Bool
built_in_ok c = all (λ law. none_left (law.enforcement c)) built_in_laws

built_in-lawful : (c : GovernanceLawContext) → built_in_ok c ≡ lawful c
unfolding built_in_ok
built_in-lawful c =
    rw
      (
        quorum-lawful c,
        spectral-lawful c,
        one_violation (requires_structured_droidspeak c.event_type && not c.droidspeak_state),
        one_violation (is_false c.audit_logging_enabled),
        one_violation
            (is_text c.event_type "governance.activate-law" && not (is_true c.human_approval)),
        two_violations (is_slave c.swarm_role && is_true c.dashboard_enabled)
            (is_slave c.swarm_role && is_text c.actor_role "master"),
        not-and-not (requires_structured_droidspeak c.event_type),
        not-and-not (is_text c.event_type "governance.activate-law"),
      )
      (regroup (c.droidspeak_state || not (requires_structured_droidspeak c.event_type))
        (not (is_false c.audit_logging_enabled))
        (is_true c.human_approval || not (is_text c.event_type "governance.activate-law"))
        (not (is_text c.event_type "governance.vote")
          || (not (is_veto c.guardian_vote) && has_quorum (get_or c.quorum_roles [])))
        (not (is_slave c.swarm_role && is_true c.dashboard_enabled))
        (not (is_slave c.swarm_role && is_text c.actor_role "master"))
        (not (is_text c.recurrent_engine "openmythos") || stable c.spectral_radius))

module _ (c : GovernanceLawContext) where
  abbrev Satisfied : LawDefinition → Type 0
  Satisfied law = none_left (law.enforcement c) ≡ true

  all-Satisfied :
      (laws : List LawDefinition)
      → all (λ law. none_left (law.enforcement c)) laws ≡ true
      → All Satisfied laws
  all-Satisfied [] h = tt
  all-Satisfied (law ∷ laws) h = (ground (arith, h), all-Satisfied laws (ground (arith, h)))

  runtime-Satisfied : (runtime : List RuntimeLaw) → All Satisfied (map build_runtime_law runtime)
  runtime-Satisfied [] = tt
  runtime-Satisfied (r ∷ rs) = (refl, runtime-Satisfied rs)

  -- A law that stands in a list of satisfied laws is enforced without violations by its id.
  member-ok :
      (law : LawDefinition) (laws : List LawDefinition)
      → Memᴰ law laws
      → All Satisfied laws
      → (enforcement_of law.id c (find (λ x. x.id == law.id) laws)).ok ≡ true
  member-ok law [] mem h = elim (Memᴰ.not-nil mem) [ ]
  member-ok law (l ∷ laws) mem h = elim (Bool-cases (l.id == law.id)) [
    | inl same ↦ rw same h.0
    | inr other ↦ rw other (elim (Memᴰ.cases_cons mem) [
      | inl e ↦ ground (arith, other, eq_iff l.id law.id, ap (λ x. x.id) e)
      | inr later ↦ member-ok law laws later h.1
    ])
  ]

  all-enforced :
      (active sub : List LawDefinition)
      → All (λ law. Memᴰ law active) sub
      → All Satisfied active
      → all (λ entry. entry.ok) (map (λ law. enforce_law active law.id c) sub) ≡ true
  unfolding enforce_law
  all-enforced active [] mem h = refl
  all-enforced active (law ∷ sub) mem h =
      rw (member-ok law active mem.0 h) (all-enforced active sub mem.1 h)

  all-append :
      (p : LawEnforcementResult → Bool) (xs ys : List LawEnforcementResult)
      → all p xs ≡ false
      → all p (xs ++ ys) ≡ false
  all-append p [] ys h = ground (arith, h)
  all-append p (x ∷ xs) ys h = elim (Bool-cases (p x)) [
    | inl yes_x ↦ rw yes_x (all-append p xs ys (ground (arith, h, yes_x)))
    | inr no_x ↦ rw no_x refl
  ]

map-append {ℓ κ} :
    {A : Type ℓ} {B : Type κ} (f : A → B) (xs ys : List A) → map f (xs ++ ys) ≡ map f xs ++ map f ys
map-append f [] ys = refl
map-append f (x ∷ xs) ys = ap (λ l. f x ∷ l) (map-append f xs ys)

first_part :
    (c : GovernanceLawContext) (runtime : List RuntimeLaw)
    → all
        (λ entry. entry.ok)
        (map (λ law. enforce_law (list_active_laws runtime) law.id c) built_in_laws)
      ≡ built_in_ok c
unfolding enforce_law built_in_ok
first_part c runtime = refl

-- A check against all laws passes exactly when the context is lawful by the built-in laws,
-- whatever runtime laws the store has.
pub validate_compliance-lawful :
    (c : GovernanceLawContext) (store : GovernanceStore)
    → (validate_compliance c none store).ok ≡ lawful c
unfolding validate_compliance built_in_ok
validate_compliance-lawful c store =
    let runtime = store.approved_runtime_laws in
    let active = list_active_laws runtime in
    elim (Bool-cases (built_in_ok c)) [
      | inl ok ↦
          all-enforced c active active (members active) (
            All-append (Satisfied c) built_in_laws (map build_runtime_law runtime)
              (all-Satisfied c built_in_laws ok) (runtime-Satisfied c runtime))
          ∙ sym ok
          ∙ built_in-lawful c
      | inr violated ↦
          ap (all (λ entry. entry.ok)) (
            map-append (λ law. enforce_law active law.id c) built_in_laws
              (map build_runtime_law runtime))
          ∙ all-append c (λ entry. entry.ok)
              (map (λ law. enforce_law active law.id c) built_in_laws)
              (map (λ law. enforce_law active law.id c) (map build_runtime_law runtime))
              (first_part c runtime ∙ violated)
          ∙ sym violated
          ∙ built_in-lawful c
    ]

outcome :
    (registered : Role → List String) (input : ConsensusInput) (report : ComplianceReport)
    → (approved_by (verdicts registered input report) ≡ (is_true input.human_override || report.ok))
      × (vetoed_by_guardian (verdicts registered input report)
          ≡ not (is_true input.human_override || report.ok))
unfolding verdicts
outcome registered input report = elim (Bool-cases (is_true input.human_override)) [
  | inl forced ↦ elim (Bool-cases report.ok) [
    | inl ok ↦ rw (forced, ok) (refl, refl)
    | inr violated ↦ rw (forced, violated) (refl, refl)
  ]
  | inr free ↦ elim (Bool-cases report.ok) [
    | inl ok ↦ rw (free, ok) (refl, refl)
    | inr violated ↦ rw (free, violated) (refl, refl)
  ]
]

-- A consensus round is approved exactly when a human overrides it or its vote is lawful by the
-- built-in laws, the guardian vetoes it exactly when it is not approved, and its outcome is put
-- first in the store after its audit event.
pub run_consensus_round-approved :
    (registered : Role → List String) (consensus_id proposal_id : String) (input : ConsensusInput)
    (store : GovernanceStore)
    → let result = run_consensus_round registered consensus_id proposal_id input store in
      (result.1.approved ≡ (is_true input.human_override || lawful (vote_context input)))
      × (result.1.guardian_veto ≡ not result.1.approved)
      × (result.0 ≡ record_consensus_round result.1 (audited "GOVERNANCE_CONSENSUS_ROUND" store))
unfolding run_consensus_round
run_consensus_round-approved registered consensus_id proposal_id input store =
    let report = validate_compliance (vote_context input) none store in
    let (approves, vetoes) = outcome registered input report in
    (
      approves
          ∙ ap (λ b. is_true input.human_override || b)
              (validate_compliance-lawful (vote_context input) store),
      vetoes ∙ ap not (sym approves),
      refl,
    )
