-- ===== src/Ralph/Progress.antt =====
-- How the loop of a persistent worker ends (packages/shared-skills/src/ralph-loop.ts).
use Prim.Native.Nat.{max}
use droid_swarm.Prelude.{
  ℕ, zero, suc, ◌+◌, ◌≤◌, ◌<◌, String, if◌then◌else◌, Option, some, get, ◌≡◌, ap, ◌∙◌, inl, inr,
  arith, Bool-cases,
}
use droid_swarm.Governance.Laws.{SwarmRole}
use droid_swarm.Ralph.Sessions.{
  RalphStatus, running, completed, RalphWorkerSessionRecord, RalphStore,
}
use droid_swarm.Ralph.Iteration.{
  RalphEnvironment, RalphResult, done, completes, last_iteration, is_running, run_ralph_iteration,
}
use droid_swarm.Ralph.Loop.{
  RalphSchedule, after_sleep, after_iteration, rounds, loop_found, run_ralph_loop,
}
use droid_swarm.Ralph.Steps.{run_ralph_iteration-IsNext}

-- The loop is over, and the session is complete after the given number of iterations.
pub record IsCompleted (result : Option RalphResult) (count : ℕ) : Type 0 where
  pub store : RalphStore
  pub row : RalphWorkerSessionRecord
  pub returned : result ≡ some (done store row)
  pub status : row.status ≡ completed
  pub counted : row.iteration_count ≡ count

module _ (env : RalphEnvironment) (schedule : RalphSchedule) (id : String)
    (master : env.swarm_role ≡ SwarmRole.master)
    (kept : (left : ℕ) (store : RalphStore)
      → get (schedule.meanwhile left store).sessions id ≡ get store.sessions id) where
  pub rounds-IsCompleted :
      (left : ℕ) (store : RalphStore) (session : RalphWorkerSessionRecord)
      → get store.sessions id ≡ some session
      → session.session_id ≡ id
      → session.status ≡ running
      → 0 < left
      → last_iteration session ≤ session.iteration_count + left
      → IsCompleted
          (rounds env schedule id left store session)
          (max (suc session.iteration_count) (last_iteration session))
  unfolding rounds
  rounds-IsCompleted zero store session found named runs some_left enough = absurd (omega arith)
  rounds-IsCompleted (suc left) store session found named runs some_left enough =
      let rest = rounds env schedule id left in
      let meanwhile = schedule.meanwhile left in
      let (next, row, ran, step) =
        run_ralph_iteration-IsNext env master (schedule.moment left) id session store found named
          runs in
      let turned =
        ap
          (λ st.
            if is_running st
            then after_iteration rest meanwhile id
                (run_ralph_iteration env (schedule.moment left) id store)
            else some (done store session))
          runs
        ∙ ap (after_iteration rest meanwhile id) ran in
      let decided : (st : RalphStatus)
          → row.status ≡ st
          → after_iteration rest meanwhile id (done next row) ≡ (
              if is_running st
              then after_sleep rest id (meanwhile next) (get (meanwhile next).sessions id)
              else some (done next row)) =
        λ st e.
          ap
            (λ st.
              if is_running st
              then after_sleep rest id (meanwhile next) (get (meanwhile next).sessions id)
              else some (done next row))
            e in
      elim (Bool-cases (completes session)) [
        | inl last ↦
            let ended : row.status ≡ completed =
              step.status ∙ ap (λ b. if b then completed else running) last in
            record {
              store = next;
              row = row;
              returned = turned ∙ decided completed ended;
              status = ended;
              counted = step.counted ∙ ground (arith, last);
            }
        | inr more ↦
            let goes_on : row.status ≡ running =
              step.status ∙ ap (λ b. if b then completed else running) more in
            let stored = kept left next ∙ step.stored in
            let later =
              rounds-IsCompleted left (meanwhile next) row stored step.named goes_on
                (ground (arith, more)) (ground (arith, step.counted, step.same_last)) in
            record {
              store = later.store;
              row = later.row;
              returned =
                  turned
                  ∙ decided running goes_on
                  ∙ ap (after_sleep rest id (meanwhile next)) stored
                  ∙ later.returned;
              status = later.status;
              counted = later.counted ∙ ground (arith, more, step.counted, step.same_last);
            }
      ]

  -- On a master, and while no one else changes the session, the loop of a running session returns:
  -- it has completed the session, after one iteration at least, at `autoCompleteAfter` or the maximum
  -- of iterations. As many rounds are enough as iterations are left, and one.
  pub run_ralph_loop-IsCompleted :
      (fuel : ℕ) (store : RalphStore) (session : RalphWorkerSessionRecord)
      → get store.sessions id ≡ some session
      → session.session_id ≡ id
      → session.status ≡ running
      → 0 < fuel
      → last_iteration session ≤ session.iteration_count + fuel
      → IsCompleted
          (run_ralph_loop env schedule fuel id store)
          (max (suc session.iteration_count) (last_iteration session))
  unfolding run_ralph_loop
  run_ralph_loop-IsCompleted fuel store session found named runs some_fuel enough =
      let later = rounds-IsCompleted fuel store session found named runs some_fuel enough in
      record {
        store = later.store;
        row = later.row;
        returned = ap (loop_found env schedule fuel id store) found ∙ later.returned;
        status = later.status;
        counted = later.counted;
      }
