-- ===== src/Supervisor/Agents.antt =====
-- `AgentSupervisor` of apps/orchestrator/src/AgentSupervisor.ts. Starting and killing a process is
-- outside the model: the end of an agent's process is an event of its own. The name that
-- `nextAgentName` puts before its counter is given with the role.
use droid_swarm.Prelude.{
  ℕ, ◌+◌, ◌-◌, ◌%◌, String, Bool, true, not, ◌&&◌, ◌||◌, ◌==◌, ltb, if◌then◌else◌, ◌<>◌, decimal,
  length, filter, get_elem?, get_or, truthy, Option, none, some, List, [], ◌∷◌, ◌++◌, Map, get, put,
  remove,
}
use droid_swarm.Prelude.Sets.{has}
use droid_swarm.Supervisor.Registry.{
  TaskRecord, WorkerState, register, assign_agents, clear_agents, get_active_agents, remove_agent,
}

pub record ActiveAgent : Type 0 where
  pub task_id : String
  pub agent_name : String
  pub role : String
  pub attempt_id : String

pub record FederationRemoteWorkerTarget : Type 0 where
  pub target_id : String
  pub serial : String
  pub roles : Option (List String)
  pub engines : Option (List String)
  pub model_tier : Option String

pub record SupervisorConfig : Type 0 where
  pub max_agents_per_task : ℕ
  pub max_concurrent_agents : ℕ
  pub federation_enabled : Bool
  pub federation_remote_workers : Option (List FederationRemoteWorkerTarget)

pub record Supervisor : Type 0 where
  pub agents : Map ActiveAgent
  pub role_counters : Map ℕ
  pub remote_target_cursor : ℕ
  pub registry : Map WorkerState

-- `canSpawn`: both numbers of free slots are above 0.
abbrev pub can_spawn : SupervisorConfig → String → Supervisor → Bool
can_spawn config task_id s =
    ltb 0 (config.max_agents_per_task - length (get_active_agents task_id s.registry))
    && ltb 0 (config.max_concurrent_agents - length s.agents)

-- `String(n).padStart(2, '0')`
abbrev pub pad_two : ℕ → String
pad_two n = if ltb n 10 then "0" <> decimal n else decimal n

-- `nextAgentName`, with the four characters of its random id
abbrev pub next_value : String → Supervisor → ℕ
next_value prefix s = get_or (get s.role_counters prefix) 0 + 1

abbrev pub next_agent_name : String → String → Supervisor → String
next_agent_name prefix random s = prefix <> "-" <> pad_two (next_value prefix s) <> "-" <> random

-- A list that restricts does so only when it is there and not empty.
abbrev pub allows : Option (List String) → String → Bool
allows none x = true
allows (some []) x = true
allows (some (y ∷ ys)) x = has (y ∷ ys) x

abbrev pub allows_optional : Option (List String) → Option String → Bool
allows_optional names x = not (truthy x) || allows names (get_or x "")

abbrev pub eligible : String → Option String → Option String → FederationRemoteWorkerTarget → Bool
eligible role engine model_tier target =
    allows target.roles role
    && allows_optional target.engines engine
    && not (
        truthy model_tier
        && truthy target.model_tier
        && not (get_or target.model_tier "" == get_or model_tier ""))

abbrev pub choose :
    List FederationRemoteWorkerTarget
    → Supervisor
    → Supervisor × Option FederationRemoteWorkerTarget
choose [] s = (s, none)
choose (t ∷ ts) s = (
  record s { remote_target_cursor = s.remote_target_cursor + 1 },
  get_elem? (t ∷ ts) (s.remote_target_cursor % length (t ∷ ts)),
)

-- `selectExecutionTarget`
unfoldable pub select_execution_target :
    SupervisorConfig
    → String
    → Option String
    → Option String
    → Supervisor
    → Supervisor × Option FederationRemoteWorkerTarget
select_execution_target config role engine model_tier s =
    if not config.federation_enabled
    then (s, none)
    else choose
        (filter (eligible role engine model_tier) (get_or config.federation_remote_workers [])) s

pub record LaunchRequest : Type 0 where
  pub now : String
  pub task : TaskRecord
  pub role : String
  pub prefix : String
  pub random : String
  pub attempt_id : String
  pub engine : Option String
  pub model_tier : Option String

-- The rest of `startAgentForTask` for a name and a target that are chosen
abbrev pub enter : LaunchRequest → String → Supervisor → Supervisor
enter r agent_name s = record s {
  agents = put s.agents agent_name (record {
    task_id = r.task.task_id;
    agent_name = agent_name;
    role = r.role;
    attempt_id = r.attempt_id;
  });
  registry =
      get_or
        (assign_agents r.now r.task.task_id
          (get_active_agents r.task.task_id s.registry ++ (agent_name ∷ [])) s.registry)
        s.registry;
}

-- `startAgentForTask`: the new state and the name and target of the agent that was started
unfoldable pub start_agent_for_task :
    SupervisorConfig
    → LaunchRequest
    → Supervisor
    → Supervisor × Option (String × Option FederationRemoteWorkerTarget)
start_agent_for_task config r s =
    if not (can_spawn config r.task.task_id s)
    then (s, none)
    else let counted = record s {
      registry = register r.now r.task s.registry;
      role_counters = put s.role_counters r.prefix (next_value r.prefix s);
    } in
      let selected = select_execution_target config r.role r.engine r.model_tier counted in
      let agent_name = next_agent_name r.prefix r.random s in
      (enter r agent_name selected.0, some (agent_name, selected.1))

-- The listener of a process's `exit`
unfoldable pub agent_exit : String → String → String → Supervisor → Supervisor
agent_exit now task_id agent_name s = record s {
  registry = remove_agent now task_id agent_name s.registry;
  agents = remove s.agents agent_name;
}

abbrev pub remove_all : List String → Map ActiveAgent → Map ActiveAgent
remove_all [] agents = agents
remove_all (name ∷ names) agents = remove_all names (remove agents name)

-- `cancelTask`: the new state and the names that it removed
unfoldable pub cancel_task : String → String → Supervisor → Supervisor × List String
cancel_task now task_id s = (
  record s {
    agents = remove_all (get_active_agents task_id s.registry) s.agents;
    registry = clear_agents now task_id s.registry;
  },
  get_active_agents task_id s.registry,
)
