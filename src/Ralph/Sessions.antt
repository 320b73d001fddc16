-- ===== src/Ralph/Sessions.antt =====
-- The sessions of persistent workers: packages/shared-projects/src/index.ts.
use droid_swarm.Prelude.{
  ℕ, String, Bool, true, ◌&&◌, ◌||◌, ◌==◌, if◌then◌else◌, [], get_or, Option, none, some, List,
  filter, Map, get, put, values,
}
use droid_swarm.Prelude.Rows.{order_by}
use droid_swarm.Runs.Store.{earlier}
use droid_swarm.Governance.Store.{GovernanceStore}

-- A value of a session's metadata: a text, a natural number, a truth value, or the text that
-- `String` gives for any other
pub data MetaValue : Type 0 where
  text : String → MetaValue
  number : ℕ → MetaValue
  flag : Bool → MetaValue
  other : String → MetaValue

abbrev pub RalphMetadata : Type 0
RalphMetadata = Map MetaValue

pub data RalphStatus : Type 0 where
  running paused completed halted failed : RalphStatus

pub record RalphWorkerSessionRecord : Type 0 where
  pub session_id : String
  pub project_id : String
  pub worker_name : String
  pub goal : String
  pub status : RalphStatus
  pub iteration_count : ℕ
  pub max_iterations : ℕ
  pub completion_signal : String
  pub sleep_ms : ℕ
  pub engine : Option String
  pub route_kind : Option String
  pub assigned_node_id : Option String
  pub current_task : Option String
  pub last_summary : Option String
  pub last_error : Option String
  pub governance_consensus_id : Option String
  pub metadata : RalphMetadata
  pub started_at : String
  pub paused_at : Option String
  pub completed_at : Option String
  pub created_at : String
  pub updated_at : String

-- `UpsertRalphWorkerSessionInput`
pub record UpsertInput : Type 0 where
  pub session_id : String
  pub project_id : String
  pub worker_name : String
  pub goal : String
  pub status : RalphStatus
  pub iteration_count : Option ℕ
  pub max_iterations : ℕ
  pub completion_signal : Option String
  pub sleep_ms : Option ℕ
  pub engine : Option String
  pub route_kind : Option String
  pub assigned_node_id : Option String
  pub current_task : Option String
  pub last_summary : Option String
  pub last_error : Option String
  pub governance_consensus_id : Option String
  pub metadata : Option RalphMetadata
  pub started_at : Option String
  pub paused_at : Option String
  pub completed_at : Option String

-- The columns of `long_term_memory` that an iteration writes
pub record RalphMemory : Type 0 where
  pub project_id : String
  pub droidspeak_summary : String
  pub english_translation : String
  pub source_run_id : String
  pub iteration : ℕ

-- The tables that a worker reads and writes, and the types of its audit events
pub record RalphStore : Type 0 where
  pub sessions : Map RalphWorkerSessionRecord
  pub memories : List RalphMemory
  pub governance : GovernanceStore
  pub audit_events : List String

-- `...session`, as an input
abbrev pub of_session : RalphWorkerSessionRecord → UpsertInput
of_session s = record {
  session_id = s.session_id;
  project_id = s.project_id;
  worker_name = s.worker_name;
  goal = s.goal;
  status = s.status;
  iteration_count = some s.iteration_count;
  max_iterations = s.max_iterations;
  completion_signal = some s.completion_signal;
  sleep_ms = some s.sleep_ms;
  engine = s.engine;
  route_kind = s.route_kind;
  assigned_node_id = s.assigned_node_id;
  current_task = s.current_task;
  last_summary = s.last_summary;
  last_error = s.last_error;
  governance_consensus_id = s.governance_consensus_id;
  metadata = some s.metadata;
  started_at = some s.started_at;
  paused_at = s.paused_at;
  completed_at = s.completed_at;
}

-- A conflict keeps the time of creation of the row.
abbrev pub created_at_of : String → Option RalphWorkerSessionRecord → String
created_at_of now none = now
created_at_of now (some existing) = existing.created_at

abbrev pub upserted : String → UpsertInput → RalphStore → RalphWorkerSessionRecord
upserted now input store = record {
  session_id = input.session_id;
  project_id = input.project_id;
  worker_name = input.worker_name;
  goal = input.goal;
  status = input.status;
  iteration_count = get_or input.iteration_count 0;
  max_iterations = input.max_iterations;
  completion_signal = get_or input.completion_signal "<RALPH_DONE>";
  sleep_ms = get_or input.sleep_ms 5000;
  engine = input.engine;
  route_kind = input.route_kind;
  assigned_node_id = input.assigned_node_id;
  current_task = input.current_task;
  last_summary = input.last_summary;
  last_error = input.last_error;
  governance_consensus_id = input.governance_consensus_id;
  metadata = get_or input.metadata [];
  started_at = get_or input.started_at now;
  paused_at = input.paused_at;
  completed_at = input.completed_at;
  created_at = created_at_of now (get store.sessions input.session_id);
  updated_at = now;
}

-- `upsertRalphWorkerSession`
abbrev pub upsert_ralph_worker_session :
    String → UpsertInput → RalphStore → RalphStore × RalphWorkerSessionRecord
upsert_ralph_worker_session now input store = (
  record store { sessions = put store.sessions input.session_id (upserted now input store) },
  upserted now input store,
)

-- `getRalphWorkerSession`
abbrev pub get_ralph_worker_session : String → RalphStore → Option RalphWorkerSessionRecord
get_ralph_worker_session session_id store = get store.sessions session_id

abbrev pub status_text : RalphStatus → String
status_text running = "running"
status_text paused = "paused"
status_text completed = "completed"
status_text halted = "halted"
status_text failed = "failed"

-- A filter that is not given, or empty, keeps every row.
abbrev pub wanted : Option String → String → Bool
wanted none value = true
wanted (some t) value = if t == "" then true else t == value

-- `listRalphWorkerSessions`: the newest update first, and the higher id first of two
unfoldable pub list_ralph_worker_sessions :
    Option String → Option RalphStatus → RalphStore → List RalphWorkerSessionRecord
list_ralph_worker_sessions project_id status store =
    order_by
      (λ a b.
        earlier b.updated_at a.updated_at
        || (a.updated_at == b.updated_at && earlier b.session_id a.session_id))
      (filter
        (λ s.
          wanted project_id s.project_id
          && wanted (elim status [ none ↦ none | some st ↦ some (status_text st) ])
              (status_text s.status))
        (values store.sessions))
