-- ===== src/Ralph/Slave.antt =====
-- Persistent workers on a slave swarm (packages/shared-skills/src/ralph-loop.ts).
use droid_swarm.Prelude.{
  ℕ, suc, String, false, if◌then◌else◌, Option, none, some, List, get, ◌≡◌, refl, ap, ◌∙◌,
}
use droid_swarm.Governance.Laws.{SwarmRole}
use droid_swarm.Governance.Compliance.{validate_compliance}
use droid_swarm.Governance.Consensus.{violation_text}
use droid_swarm.Governance.Verdict.{lawful, validate_compliance-lawful}
use droid_swarm.Ralph.Sessions.{running, halted, RalphWorkerSessionRecord, RalphMemory, RalphStore}
use droid_swarm.Ralph.Iteration.{
  RalphEnvironment, RalphResult, done, is_running, worker_context, behind_gate,
  maybe_run_governance_gate, halted_by_laws, iterate, iterate_found, run_ralph_iteration,
}
use droid_swarm.Ralph.Loop.{RalphSchedule, after_iteration, rounds, loop_found, run_ralph_loop}

-- The loop is over, and the session is halted with the iterations and the memories that it had.
pub record IsHalted (result : Option RalphResult) (count : ℕ) (memories : List RalphMemory)
    : Type 0 where
  pub store : RalphStore
  pub row : RalphWorkerSessionRecord
  pub returned : result ≡ some (done store row)
  pub status : row.status ≡ halted
  pub counted : row.iteration_count ≡ count
  pub remembered : store.memories ≡ memories

module _ (env : RalphEnvironment) (schedule : RalphSchedule) (id : String)
    (slave : env.swarm_role ≡ SwarmRole.slave) where
  worker_context-unlawful : lawful (worker_context env) ≡ false
  worker_context-unlawful = rw slave refl

  -- On a slave swarm the loop of a running session halts it before its next iteration.
  pub run_ralph_loop-IsHalted :
      (left : ℕ) (store : RalphStore) (session : RalphWorkerSessionRecord)
      → get store.sessions id ≡ some session
      → session.status ≡ running
      → IsHalted
          (run_ralph_loop env schedule (suc left) id store)
          session.iteration_count
          store.memories
  unfolding run_ralph_loop rounds run_ralph_iteration
  run_ralph_loop-IsHalted left store session found runs =
      let moment = schedule.moment left in
      let rest = rounds env schedule id left in
      let meanwhile = schedule.meanwhile left in
      let texts = violation_text (validate_compliance (worker_context env) none store.governance) in
      let after = after_iteration rest meanwhile id in
      record {
        store = _;
        row = _;
        returned =
            ap (loop_found env schedule (suc left) id store) found
            ∙ ap
                (λ st.
                  if is_running st
                  then after (run_ralph_iteration env moment id store)
                  else some (done store session))
                runs
            ∙ ap (λ o. after (iterate_found env moment id store o)) found
            ∙ ap
                (λ st.
                  after (
                    if is_running st then iterate env moment session store else done store session))
                runs
            ∙ ap
                (λ b. after (
                  if b
                  then behind_gate env moment session
                      (maybe_run_governance_gate env moment session store)
                  else halted_by_laws moment texts session store))
                (validate_compliance-lawful (worker_context env) store.governance
                  ∙ worker_context-unlawful);
        status = refl;
        counted = refl;
        remembered = refl;
      }
