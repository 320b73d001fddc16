-- ===== src/Supervisor/Tests.antt =====
-- A supervisor at work, and its theorems there.
use droid_swarm.Prelude.{
  ◌+◌, ◌%◌, String, true, false, if◌then◌else◌, none, some, List, [], ◌∷◌, length, filter,
  get_elem?, get_or, get, put, decimal, ◌≡◌, refl, ◌⊎◌, arith,
}
use droid_swarm.Prelude.Sets.{has, of_list, add}
use droid_swarm.Supervisor.Registry.{get_active_agents, register, assign_agents}
use droid_swarm.Supervisor.Agents.{
  FederationRemoteWorkerTarget, SupervisorConfig, Supervisor, LaunchRequest, eligible,
  select_execution_target, start_agent_for_task, cancel_task,
}
use droid_swarm.Supervisor.Limits.{Event, start, step, run, IsWithin, run-IsWithin}
use droid_swarm.Supervisor.Targets.{select_execution_target-turn}
use droid_swarm.Supervisor.Cancel.{cancel_task-agents}

abbrev target : String → FederationRemoteWorkerTarget
target id = record {
  target_id = id;
  serial = id;
  roles = some ("coder" ∷ []);
  engines = none;
  model_tier = none;
}

abbrev config : SupervisorConfig
config = record {
  max_agents_per_task = 2;
  max_concurrent_agents = 3;
  federation_enabled = true;
  federation_remote_workers = some (target "a" ∷ target "b" ∷ []);
}

abbrev idle : Supervisor
idle = record { agents = []; role_counters = []; remote_target_cursor = 0; registry = [] }

abbrev request : String → LaunchRequest
request random = record {
  now = "1";
  task = record {
    task_id = "t";
    title = "t";
    description = "";
    task_type = "task";
    priority = "medium";
    created_at = "0";
  };
  role = "coder";
  prefix = "Coder";
  random = random;
  attempt_id = random;
  engine = none;
  model_tier = none;
}

-- The third agent of a task of two is refused.
abbrev events : List Event
events = start (request "aaaa") ∷ start (request "bbbb") ∷ start (request "cccc") ∷ []

abbrev busy : Supervisor
busy = run config events idle

busy_agents : get_active_agents "t" busy.registry ≡ "Coder-01-aaaa" ∷ "Coder-02-bbbb" ∷ []
unfolding run step start_agent_for_task select_execution_target register assign_agents get put
    of_list has add decimal
busy_agents = refl

run-IsWithin_example : IsWithin config busy
unfolding get
run-IsWithin_example = run-IsWithin config events idle (omega arith, λ id. omega arith)

select_execution_target-turn_example :
    let targets =
      filter (eligible "coder" none none) (get_or config.federation_remote_workers []) in
    let result = select_execution_target config "coder" none none busy in
    (((config.federation_enabled ≡ false) ⊎ (targets ≡ [])) × (result ≡ (busy, none)))
    ⊎ ((config.federation_enabled ≡ true)
        × ((t : FederationRemoteWorkerTarget) × (result
              ≡ (record busy { remote_target_cursor = busy.remote_target_cursor + 1 }, some t))
            × (get_elem? targets (busy.remote_target_cursor % length targets) ≡ some t)
            × (eligible "coder" none none t ≡ true)))
select_execution_target-turn_example = select_execution_target-turn config "coder" none none busy

cancel_task-agents_example :
    ((cancel_task "2" "t" busy).1 ≡ get_active_agents "t" busy.registry)
    × ((name : String)
        → get (cancel_task "2" "t" busy).0.agents name
          ≡ (if has (cancel_task "2" "t" busy).1 name then none else get busy.agents name))
    × (get_active_agents "t" (cancel_task "2" "t" busy).0.registry ≡ [])
cancel_task-agents_example = cancel_task-agents "2" "t" busy
