-- ===== src/Operator/Effects.antt =====
-- What an operator's action does (apps/orchestrator/src/operator/OperatorActionService.ts).
use droid_swarm.Prelude.{
  String, ◌==◌, if◌then◌else◌, length, suc, length-append, Option, none, some, List, [], get, put,
  get-put, ◌≡◌, refl, sym, ap, ◌∙◌, inl, inr, arith, Bool-cases, eq_iff,
}
use droid_swarm.Runs.Records.{TaskStatus, Priority, PersistedTask}
use droid_swarm.Scheduler.State.{set_task_status}
use droid_swarm.Scheduler.Tables.{set_found}
use droid_swarm.Supervisor.Registry.{get_active_agents}
use droid_swarm.Supervisor.Cancel.{cancel_task-agents}
use droid_swarm.Operator.Intents.{
  ActionType, cancel_task, request_review, reprioritize, OperatorControlAction,
}
use droid_swarm.Operator.Actions.{
  Orchestrator, operator_action, with_priority, update_task_priority, perform,
  record_operator_action, execute,
}

-- The task that an action is for, after it
abbrev pub task_after : String → ActionType → Option Priority → PersistedTask → PersistedTask
task_after now cancel_task priority t = record t { status = TaskStatus.cancelled; updated_at = now }
task_after now request_review priority t = record t {
  status = TaskStatus.in_review;
  updated_at = now;
}
task_after now reprioritize none t = t
task_after now reprioritize (some priority) t = record t { priority = priority; updated_at = now }

-- The agents of the task after an action, and those that its outcome names as removed
abbrev pub agents_after : ActionType → List String → List String
agents_after cancel_task agents = []
agents_after _ agents = agents

abbrev pub removed_by : ActionType → List String → Option (List String)
removed_by cancel_task agents = some agents
removed_by _ agents = none

module _ (now id detail : String) (o : Orchestrator) (t : PersistedTask)
    (found : get o.state.tasks id ≡ some t) (named : t.task_id ≡ id) where
  put_row :
      (row : PersistedTask) (k : String)
      → get (put o.state.tasks t.task_id row) k
        ≡ (if id == k then some row else get o.state.tasks k)
  put_row row k =
      get-put o.state.tasks t.task_id k row
      ∙ ap (λ i. if i == k then some row else get o.state.tasks k) named

  put_status :
      (status : TaskStatus) (k : String)
      → get (set_task_status now id status o.state).tasks k ≡ (
          if id == k
          then some (record t { status = status; updated_at = now })
          else get o.state.tasks k)
  put_status status k =
      ap (λ s. get s.tasks k) (set_found now id status o.state t found)
      ∙ put_row (record t { status = status; updated_at = now }) k

  no_change : (k : String) → get o.state.tasks k ≡ (if id == k then some t else get o.state.tasks k)
  no_change k = elim (Bool-cases (id == k)) [
    | inl same ↦ rw same (ap (get o.state.tasks) (sym ((eq_iff id k).0 same)) ∙ found)
    | inr other ↦ rw other refl
  ]

  perform-tasks :
      (type : ActionType) (priority : Option Priority) (k : String)
      → get (perform type now id detail priority o).0.state.tasks k
        ≡ (if id == k then some (task_after now type priority t) else get o.state.tasks k)
  unfolding update_task_priority
  perform-tasks cancel_task priority k = put_status TaskStatus.cancelled k
  perform-tasks request_review priority k = put_status TaskStatus.in_review k
  perform-tasks reprioritize none k = no_change k
  perform-tasks reprioritize (some priority) k =
      ap (λ row. get (with_priority now priority o.state row).tasks k) found
      ∙ put_row (record t { priority = priority; updated_at = now }) k

  perform-agents :
      (type : ActionType) (priority : Option Priority)
      → (get_active_agents id (perform type now id detail priority o).0.supervisor.registry
          ≡ agents_after type (get_active_agents id o.supervisor.registry))
        × ((perform type now id detail priority o).1.removed_agents
            ≡ removed_by type (get_active_agents id o.supervisor.registry))
  perform-agents cancel_task priority =
      let (returned, gone, cleared) = cancel_task-agents now id o.supervisor in
      (cleared, ap some returned)
  perform-agents request_review priority = (refl, refl)
  perform-agents reprioritize priority = (refl, refl)

perform-actions :
    (now id detail : String) (type : ActionType) (priority : Option Priority) (o : Orchestrator)
    → (perform type now id detail priority o).0.actions ≡ o.actions
perform-actions now id detail cancel_task priority o = refl
perform-actions now id detail request_review priority o = refl
perform-actions now id detail reprioritize priority o = refl

-- An action is recorded once; it changes the task that it is for as its type says, and no other task.
-- A cancellation removes the agents of the task and names them; the other actions leave them.
pub execute-effects :
    (now id operator_name detail : String) (action : OperatorControlAction) (o : Orchestrator)
    (t : PersistedTask)
    → get o.state.tasks id ≡ some t
    → t.task_id ≡ id
    → let (after, outcome) = execute now action id operator_name detail o in
      let agents = get_active_agents id o.supervisor.registry in
      (length after.actions ≡ suc (length o.actions))
      × ((k : String)
          → get after.state.tasks k ≡ (
              if id == k
              then some (task_after now action.type action.priority t)
              else get o.state.tasks k))
      × (get_active_agents id after.supervisor.registry ≡ agents_after action.type agents)
      × (outcome.removed_agents ≡ removed_by action.type agents)
unfolding execute
execute-effects now id operator_name detail action o t found named =
    let recorded =
      record_operator_action
        (record {
          task_id = some id;
          action_type = operator_action action.type;
          detail = detail;
          operator = operator_name;
          priority = action.priority;
          command = none;
          created_at = now;
        })
        o in
    let (agents, removed) =
      perform-agents now id detail recorded t found named action.type action.priority in
    (
      ap length (perform-actions now id detail action.type action.priority recorded)
          ∙ omega (arith, length-append {0}),
      perform-tasks now id detail recorded t found named action.type action.priority,
      agents,
      removed,
    )
