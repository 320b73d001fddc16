-- ===== src/Runs/Tests.antt =====
-- Runs of the orchestrator at concrete tables, and the theorems there.
use droid_swarm.Prelude.{String, none, some, List, [], ◌∷◌, get, ◌≡◌, refl}
use droid_swarm.Prelude.Rows.{map_option, IsTable}
use droid_swarm.Runs.Records.{
  RunStatus, TaskStatus, AttemptStatus, Priority, RunRecord, PersistedTask, TaskAttemptRecord,
}
use droid_swarm.Runs.Store.{PersistenceClient}
use droid_swarm.Runs.Lifecycle.{
  recover_run, recover_tasks, recover_task, mark_interrupted_attempts_failed, active_tasks,
  completed, interrupted,
}
use droid_swarm.Runs.Interrupted as Interrupted
use droid_swarm.Runs.Recovery.{recover_run-attempts, recover_run-status, settled}
use droid_swarm.Runs.Terminal.{Operation, cancel, shutdown, recover, perform_all, perform_all-ended}

abbrev pub run_in : String → RunStatus → RunRecord
run_in id status = record {
  run_id = id;
  project_id = "p";
  repo_id = none;
  root_path = none;
  branch = none;
  workspace_id = none;
  status = status;
  created_at = "0";
  updated_at = "0";
  metadata = none;
}

abbrev pub task_in : String → String → String → TaskStatus → PersistedTask
task_in id run_id created status = record {
  task_id = id;
  run_id = run_id;
  project_id = none;
  repo_id = none;
  root_path = none;
  branch = none;
  workspace_id = none;
  parent_task_id = none;
  name = id;
  status = status;
  priority = Priority.medium;
  created_at = created;
  updated_at = created;
  metadata = none;
}

abbrev attempt_in : String → AttemptStatus → TaskAttemptRecord
attempt_in id status = record {
  attempt_id = id;
  task_id = "late";
  run_id = "r";
  project_id = none;
  repo_id = none;
  root_path = none;
  branch = none;
  workspace_id = none;
  agent_name = "Coder-01";
  status = status;
  created_at = "1";
  updated_at = "1";
  metadata = none;
}

abbrev swarm : PersistenceClient
swarm = record {
  runs = ("done", run_in "done" RunStatus.completed) ∷ ("r", run_in "r" RunStatus.running) ∷ [];
  tasks =
      ("late", task_in "late" "r" "2" TaskStatus.running)
      ∷ ("over", task_in "over" "r" "1" TaskStatus.verified)
      ∷ ("early", task_in "early" "r" "1" TaskStatus.in_review)
      ∷ ("other", task_in "other" "done" "1" TaskStatus.queued)
      ∷ [];
  attempts =
      ("a", attempt_in "a" AttemptStatus.running)
      ∷ ("b", attempt_in "b" AttemptStatus.blocked)
      ∷ ("c", attempt_in "c" AttemptStatus.completed)
      ∷ [];
  digests = [];
  handoffs = [];
  execution_events = [];
}

-- Tasks are resumed in the order of their creation.
recovers :
    (recover_run "9" (run_in "r" RunStatus.running) swarm).1.resumed_tasks ≡ "early" ∷ "late" ∷ []
unfolding recover_run recover_tasks recover_task mark_interrupted_attempts_failed
recovers = refl

swarm_attempts : IsTable (λ a. a.attempt_id) swarm.attempts
unfolding get
swarm_attempts = (refl, refl, (refl, refl, (refl, refl, tt)))

swarm_runs : IsTable (λ r. r.run_id) swarm.runs
unfolding get
swarm_runs = (refl, refl, (refl, refl, tt))

recover_run-attempts_example :
    get (recover_run "9" (run_in "r" RunStatus.running) swarm).0.attempts "b"
    ≡ map_option (Interrupted.interrupted "9" "r") (get swarm.attempts "b")
recover_run-attempts_example =
    recover_run-attempts "9" (run_in "r" RunStatus.running) swarm swarm_attempts "b"

swarm_r : get swarm.runs "r" ≡ some (run_in "r" RunStatus.running)
unfolding get
swarm_r = refl

swarm_done : get swarm.runs "done" ≡ some (run_in "done" RunStatus.completed)
unfolding get
swarm_done = refl

recover_run-status_example :
    get (recover_run "9" (run_in "r" RunStatus.running) swarm).0.runs "r"
    ≡ some (record (run_in "r" RunStatus.running) {
      status = settled (active_tasks "r" swarm);
      updated_at = "9";
    })
recover_run-status_example =
    recover_run-status "9" (run_in "r" RunStatus.running) swarm swarm_r refl

abbrev orders : List (String × Operation)
orders = ("5", cancel none "done") ∷ ("6", recover) ∷ ("7", shutdown "done") ∷ []

perform_all-ended_example :
    IsTable (λ r. r.run_id) (perform_all orders swarm).runs
    × (get (perform_all orders swarm).runs "done" ≡ some (run_in "done" RunStatus.completed))
perform_all-ended_example =
    perform_all-ended "done" (run_in "done" RunStatus.completed) refl orders swarm swarm_runs
      swarm_done
