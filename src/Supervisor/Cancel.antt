-- ===== src/Supervisor/Cancel.antt =====
-- What cancelling a task does to the agents (apps/orchestrator/src/AgentSupervisor.ts).
use droid_swarm.Prelude.{
  String, ◌==◌, if◌then◌else◌, Option, none, some, List, [], ◌∷◌, Map, get, remove, get-remove,
  get-put, ◌≡◌, refl, ap, ◌∙◌, inl, inr, arith, eq_refl, Bool-cases,
}
use droid_swarm.Prelude.Sets.{has}
use droid_swarm.Supervisor.Registry.{
  WorkerState, cleared, clear_agents, get_active_agents, agents_of,
}
use droid_swarm.Supervisor.Agents.{ActiveAgent, Supervisor, remove_all, cancel_task}

get-remove_all :
    (names : List String) (m : Map ActiveAgent) (k : String)
    → get (remove_all names m) k ≡ (if has names k then none else get m k)
unfolding has
get-remove_all [] m k = refl
get-remove_all (n ∷ names) m k = elim (Bool-cases (n == k)) [
  | inl same ↦
      rw same (get-remove_all names (remove m n) k ∙ rw (get-remove m n k, same) (ground arith))
  | inr other ↦ rw other (get-remove_all names (remove m n) k ∙ rw (get-remove m n k, other) refl)
]

-- Cancelling a task returns the agents that the registry had for it; none of these is active
-- after it, every other agent is as before, and the registry has no agent for the task.
pub cancel_task-agents :
    (now task_id : String) (s : Supervisor)
    → ((cancel_task now task_id s).1 ≡ get_active_agents task_id s.registry)
      × ((name : String)
          → get (cancel_task now task_id s).0.agents name
            ≡ (if has (cancel_task now task_id s).1 name then none else get s.agents name))
      × (get_active_agents task_id (cancel_task now task_id s).0.registry ≡ [])
unfolding cancel_task clear_agents
cancel_task-agents now task_id s = (
  refl,
  λ name. get-remove_all (get_active_agents task_id s.registry) s.agents name,
  go (get s.registry task_id) refl,
)
  where
    go :
        (o : Option WorkerState)
        → get s.registry task_id ≡ o
        → get_active_agents task_id (cleared now task_id o s.registry) ≡ []
    go none gone = ap agents_of gone
    go (some w) found = rw (get-put s.registry task_id task_id _, eq_refl task_id) refl
