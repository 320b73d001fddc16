-- ===== src/Ralph/Steps.antt =====
-- One iteration of a session that runs, on a master and on a slave
-- (packages/shared-skills/src/ralph-loop.ts).
use droid_swarm.Prelude.{
  suc, String, true, false, not, ◌||◌, if◌then◌else◌, truthy, Option, none, some, get, get-put, ◌≡◌,
  refl, ap, subst, ◌∙◌, inl, inr, Bool-cases, eq_refl,
}
use droid_swarm.Prelude.Sets.{has}
use droid_swarm.Governance.Laws.{SwarmRole}
use droid_swarm.Governance.Compliance.{validate_compliance}
use droid_swarm.Governance.Consensus.{violation_text, vote_context}
use droid_swarm.Governance.Verdict.{
  lawful, validate_compliance-lawful, run_consensus_round-approved,
}
use droid_swarm.Ralph.Signals.{number_of}
use droid_swarm.Ralph.Sessions.{MetaValue, running, completed, RalphWorkerSessionRecord, RalphStore}
use droid_swarm.Ralph.Iteration.{
  RalphEnvironment, RalphMoment, done, worker_context, spawn_proposal, requires_consensus,
  maybe_run_governance_gate, behind_gate, completes, last_iteration, advance, iterate,
  run_ralph_iteration, is_running, iterate_found, halted_by_laws, reread, last_of,
  synthesize_iteration,
}

-- What an iteration makes of a session: one more is counted, and the last one completes it.
pub record IsNext (id : String) (session : RalphWorkerSessionRecord) (next : RalphStore)
    (row : RalphWorkerSessionRecord) : Type 0 where
  pub stored : get next.sessions id ≡ some row
  pub named : row.session_id ≡ id
  pub status : row.status ≡ (if completes session then completed else running)
  pub counted : row.iteration_count ≡ suc session.iteration_count
  pub same_last : last_iteration row ≡ last_iteration session

module _ (env : RalphEnvironment) (master : env.swarm_role ≡ SwarmRole.master) where
  worker_context-lawful : lawful (worker_context env) ≡ true
  worker_context-lawful = rw master refl

  vote_context-lawful :
      (session : RalphWorkerSessionRecord)
      → lawful (vote_context (spawn_proposal env session)) ≡ true
  unfolding has
  vote_context-lawful session = rw master refl

  -- On a master the gate lets each session pass, and leaves the sessions as they are.
  gate-passes :
      (moment : RalphMoment) (session : RalphWorkerSessionRecord) (store : RalphStore)
      → (maybe_run_governance_gate env moment session store).halted ≡ false
  unfolding maybe_run_governance_gate
  gate-passes moment session store =
      elim (Bool-cases
        (not (requires_consensus session) || truthy session.governance_consensus_id)) [
          | inl free ↦ rw free refl
          | inr asked ↦ rw asked (
              ap not (
                (run_consensus_round-approved env.registered moment.consensus_id moment.proposal_id
                  (spawn_proposal env session) store.governance).0
                ∙ vote_context-lawful session))
        ]

  advance-IsNext :
      (moment : RalphMoment) (consensus_id : Option String) (session : RalphWorkerSessionRecord)
      (store : RalphStore)
      → let (next, row) = advance env moment consensus_id session store in
        IsNext session.session_id session next row
  unfolding advance synthesize_iteration
  advance-IsNext moment consensus_id session store = record {
    stored = simp (get-put, eq_refl);
    named = refl;
    status = refl;
    counted = refl;
    same_last =
        ap (λ (o : Option MetaValue). last_of session.max_iterations (number_of o))
          (get-put session.metadata "lastMemoryCount" "autoCompleteAfter" _);
  }

  -- On a master each iteration of a session that runs is a step of it.
  pub run_ralph_iteration-IsNext :
      (moment : RalphMoment) (id : String) (session : RalphWorkerSessionRecord) (store : RalphStore)
      → get store.sessions id ≡ some session
      → session.session_id ≡ id
      → session.status ≡ running
      → (next : RalphStore) × (row : RalphWorkerSessionRecord) × (run_ralph_iteration env moment id
            store
          ≡ done next row)
        × IsNext id session next row
  unfolding run_ralph_iteration
  run_ralph_iteration-IsNext moment id session store found named runs =
      let gate = maybe_run_governance_gate env moment session store in
      let (next, row) = advance env moment gate.consensus_id session gate.store in
      (
        next,
        row,
        ap (iterate_found env moment id store) found
            ∙ ap
                (λ st.
                  if is_running st then iterate env moment session store else done store session)
                runs
            ∙ ap
                (λ b.
                  if b
                  then behind_gate env moment session gate
                  else halted_by_laws moment
                      (violation_text
                        (validate_compliance (worker_context env) none store.governance))
                      session store)
                (validate_compliance-lawful (worker_context env) store.governance
                  ∙ worker_context-lawful)
            ∙ ap (λ b. if b then reread moment session gate.store else done next row)
                (gate-passes moment session store),
        subst (λ i. IsNext i session next row) named
            (advance-IsNext moment gate.consensus_id session gate.store),
      )
