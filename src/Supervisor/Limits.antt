-- ===== src/Supervisor/Limits.antt =====
-- The supervisor keeps its limits on agents (apps/orchestrator/src/AgentSupervisor.ts).
use droid_swarm.Prelude.{
  ℕ, ◌+◌, ◌≤◌, String, true, ◌==◌, length, length-append, filter, get_or, Option, none, some, List,
  [], ◌∷◌, Map, get, put, remove, get-put, length-put, ◌≡◌, refl, ap, subst, ◌∙◌, inl, inr, arith,
  eq_iff, Bool-cases,
}
use droid_swarm.Prelude.Sets.{of_list, add, length-add, length-delete-le}
use droid_swarm.Supervisor.Registry.{
  TaskRecord, WorkerState, registered, register, assigned, assign_agents, cleared, clear_agents,
  agents_of, get_active_agents, removed, remove_agent,
}
use droid_swarm.Supervisor.Agents.{
  ActiveAgent, FederationRemoteWorkerTarget, SupervisorConfig, Supervisor, can_spawn, eligible,
  choose, select_execution_target, LaunchRequest, enter, next_agent_name, next_value,
  start_agent_for_task, agent_exit, remove_all, cancel_task,
}

pub data Event : Type 0 where
  start : LaunchRequest → Event
  exit : String → String → String → Event
  cancel : String → String → Event

unfoldable pub step : SupervisorConfig → Event → Supervisor → Supervisor
step config (start r) s = (start_agent_for_task config r s).0
step config (exit now task_id agent_name) s = agent_exit now task_id agent_name s
step config (cancel now task_id) s = (cancel_task now task_id s).0

unfoldable pub run : SupervisorConfig → List Event → Supervisor → Supervisor
run config [] s = s
run config (e ∷ es) s = run config es (step config e s)

-- No more agents than the swarm may have, and no more of a task than a task may have
abbrev pub IsWithin : SupervisorConfig → Supervisor → Type 0
IsWithin config s =
    (length s.agents ≤ config.max_concurrent_agents)
    × ((id : String) → length (get_active_agents id s.registry) ≤ config.max_agents_per_task)

abbrev PerTask : ℕ → Map WorkerState → Type 0
PerTask n registry = (id : String) → length (get_active_agents id registry) ≤ n

length-of_list-le : (s xs : List String) → length (of_list s xs) ≤ length s + length xs
unfolding of_list
length-of_list-le s [] = omega arith
length-of_list-le s (x ∷ xs) = ground (arith, length-of_list-le (add s x) xs, length-add s x)

length-remove-le {ℓ} : {V : Type ℓ} (m : Map V) (k : String) → length (remove m k) ≤ length m
unfolding remove
length-remove-le [] k = omega arith
length-remove-le ((j, v) ∷ m) k = ground (arith, length-remove-le m k)

length-remove_all-le :
    (names : List String) (m : Map ActiveAgent) → length (remove_all names m) ≤ length m
length-remove_all-le [] m = omega arith
length-remove_all-le (n ∷ names) m =
    omega (arith, length-remove_all-le names (remove m n), length-remove-le m n)

put-PerTask :
    (n : ℕ) (m : Map WorkerState) (k : String) (w : WorkerState)
    → PerTask n m
    → length w.active_agents ≤ n
    → PerTask n (put m k w)
put-PerTask n m k w h small id = elim (Bool-cases (k == id)) [
  | inl same ↦ rw (get-put m k id w, same) small
  | inr other ↦ rw (get-put m k id w, other) (h id)
]

register-same :
    (now id : String) (task : TaskRecord) (m : Map WorkerState)
    → get_active_agents id (register now task m) ≡ get_active_agents id m
unfolding register
register-same now id task m = elim (Bool-cases (task.task_id == id)) [
  | inl same ↦
      rw (get-put m task.task_id id (registered now task (get m task.task_id)), same)
        (kept (get m task.task_id)
          ∙ ap (λ k. agents_of (get m k)) ((eq_iff task.task_id id).0 same))
  | inr other ↦
      rw (get-put m task.task_id id (registered now task (get m task.task_id)), other) refl
]
  where
    kept : (o : Option WorkerState) → (registered now task o).active_agents ≡ agents_of o
    kept none = refl
    kept (some w) = refl

assign-PerTask :
    (n : ℕ) (now id : String) (names : List String) (m : Map WorkerState)
    → PerTask n m
    → length names ≤ n
    → PerTask n (get_or (assign_agents now id names m) m)
unfolding assign_agents
assign-PerTask n now id names m h small = go (get m id)
  where
    go : (o : Option WorkerState) → PerTask n (get_or (assigned now id names o m) m)
    go none = h
    go (some w) = put-PerTask n m id _ h (omega (arith, length-of_list-le [] names, small))

remove_agent-PerTask :
    (n : ℕ) (now id name : String) (m : Map WorkerState)
    → PerTask n m
    → PerTask n (remove_agent now id name m)
unfolding remove_agent
remove_agent-PerTask n now id name m h = go (get m id) refl
  where
    found_small : (w : WorkerState) → get m id ≡ some w → length w.active_agents ≤ n
    found_small w found = subst (λ o. length (agents_of o) ≤ n) found (h id)

    go : (o : Option WorkerState) → get m id ≡ o → PerTask n (removed now id name o m)
    go none gone = h
    go (some w) found =
        put-PerTask n m id _ h
          (omega (arith, length-delete-le w.active_agents name, found_small w found))

clear_agents-PerTask :
    (n : ℕ) (now id : String) (m : Map WorkerState)
    → PerTask n m
    → PerTask n (clear_agents now id m)
unfolding clear_agents
clear_agents-PerTask n now id m h = go (get m id)
  where
    go : (o : Option WorkerState) → PerTask n (cleared now id o m)
    go none = h
    go (some w) = put-PerTask n m id _ h (omega arith)

select-same :
    (config : SupervisorConfig) (role : String) (engine tier : Option String) (s : Supervisor)
    → ((select_execution_target config role engine tier s).0.agents ≡ s.agents)
      × ((select_execution_target config role engine tier s).0.registry ≡ s.registry)
unfolding select_execution_target
select-same config role engine tier s = elim (Bool-cases config.federation_enabled) [
  | inr off ↦ rw off (refl, refl)
  | inl on ↦
      rw on (go (filter (eligible role engine tier) (get_or config.federation_remote_workers [])))
]
  where
    go :
        (ts : List FederationRemoteWorkerTarget)
        → ((choose ts s).0.agents ≡ s.agents) × ((choose ts s).0.registry ≡ s.registry)
    go [] = (refl, refl)
    go (t ∷ ts) = (refl, refl)

module _ (config : SupervisorConfig) where
  enter-IsWithin :
      (r : LaunchRequest) (name : String) (s : Supervisor)
      → can_spawn config r.task.task_id s ≡ true
      → IsWithin config s
      → IsWithin config (enter r name s)
  enter-IsWithin r name s free h = (
    ground (
      arith,
      free,
      length-put s.agents name (record {
        task_id = r.task.task_id;
        agent_name = name;
        role = r.role;
        attempt_id = r.attempt_id;
      }),
    ),
    assign-PerTask config.max_agents_per_task r.now r.task.task_id _ s.registry h.1 (
        ground
          (arith, free, length-append (get_active_agents r.task.task_id s.registry) (name ∷ []))),
  )

  start-IsWithin :
      (r : LaunchRequest) (s : Supervisor)
      → IsWithin config s
      → IsWithin config (start_agent_for_task config r s).0
  unfolding start_agent_for_task
  start-IsWithin r s h = elim (Bool-cases (can_spawn config r.task.task_id s)) [
    | inr full ↦ rw full h
    | inl free ↦
        let counted : Supervisor = record s {
          registry = register r.now r.task s.registry;
          role_counters = put s.role_counters r.prefix (next_value r.prefix s);
        } in
        let same = select-same config r.role r.engine r.model_tier counted in
        let known : (id : String)
            → get_active_agents id
                (select_execution_target config r.role r.engine r.model_tier counted).0.registry
              ≡ get_active_agents id s.registry =
          λ id. ap (get_active_agents id) same.1 ∙ register-same r.now id r.task s.registry in
        rw free (
          enter-IsWithin r (next_agent_name r.prefix r.random s)
            (select_execution_target config r.role r.engine r.model_tier counted).0
            (rw (same.0, known r.task.task_id) free) (rw same.0 h.0, λ id. rw (known id) (h.1 id)))
  ]

  step-IsWithin :
      (e : Event) (s : Supervisor) → IsWithin config s → IsWithin config (step config e s)
  unfolding step agent_exit cancel_task
  step-IsWithin (start r) s h = start-IsWithin r s h
  step-IsWithin (exit now task_id name) s h = (
    omega (arith, h.0, length-remove-le s.agents name),
    remove_agent-PerTask config.max_agents_per_task now task_id name s.registry h.1,
  )
  step-IsWithin (cancel now task_id) s h = (
    omega (arith, h.0, length-remove_all-le (get_active_agents task_id s.registry) s.agents),
    clear_agents-PerTask config.max_agents_per_task now task_id s.registry h.1,
  )

  -- Whatever agents are started, end and are cancelled, the supervisor stays within both limits.
  pub run-IsWithin :
      (es : List Event) (s : Supervisor) → IsWithin config s → IsWithin config (run config es s)
  unfolding run
  run-IsWithin [] s h = h
  run-IsWithin (e ∷ es) s h = run-IsWithin es (step config e s) (step-IsWithin e s h)
