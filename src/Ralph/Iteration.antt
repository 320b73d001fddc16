-- ===== src/Ralph/Iteration.antt =====
-- One iteration of a persistent worker: `runRalphIteration` of
-- packages/shared-skills/src/ralph-loop.ts.
use Prim.Native.Nat.{max}
use droid_swarm.Prelude.{
  ℕ, suc, ◌+◌, String, Bool, true, false, not, ◌||◌, ltb, leb, if◌then◌else◌, truthy, ◌<>◌, join,
  decimal, length, Option, none, some, List, [], ◌∷◌, ◌++◌, get, put,
}
use droid_swarm.Prelude.Words.{text_length}
use droid_swarm.Router.Decision.{ModelBackend, ModelRouterContext, choose_backend_decision}
use droid_swarm.Governance.Laws.{SwarmRole, GovernanceLawContext}
use droid_swarm.Governance.Compliance.{validate_compliance}
use droid_swarm.Governance.Consensus.{Role, ConsensusInput, violation_text, run_consensus_round}
use droid_swarm.Ralph.Sessions.{
  MetaValue, number, RalphStatus, running, completed, halted, RalphWorkerSessionRecord, UpsertInput,
  RalphMemory, RalphStore, of_session, upsert_ralph_worker_session, get_ralph_worker_session,
}
use droid_swarm.Ralph.Signals.{is_set, number_of, detect_ralph_signals}

-- The settings of the process, the agents that are registered for consensus, and
-- `retrieveRelevantMemories`: the texts of the memories of a project that fit a query, best first
pub record RalphEnvironment : Type 0 where
  pub ralph_enabled : Bool
  pub swarm_role : SwarmRole
  pub federation_node_id : Option String
  pub mythos_available : Bool
  pub platform : String
  pub arch : String
  pub registered : Role → List String
  pub retrieve_relevant_memories : String → String → List RalphMemory → List String

-- The time of an iteration and the ids that `randomUUID` gives in it
pub record RalphMoment : Type 0 where
  pub now : String
  pub consensus_id : String
  pub proposal_id : String

pub data RalphError : Type 0 where
  ralph_disabled : RalphError
  unknown_session : String → RalphError
  session_disappeared : String → RalphError

pub data RalphResult : Type 0 where
  done : RalphStore → RalphWorkerSessionRecord → RalphResult
  threw : RalphError → RalphResult

abbrev pub done_of : RalphStore × RalphWorkerSessionRecord → RalphResult
done_of (store, session) = done store session

abbrev pub is_running : RalphStatus → Bool
is_running running = true
is_running _ = false

-- The context that an iteration is checked in
abbrev pub worker_context : RalphEnvironment → GovernanceLawContext
worker_context env = record {
  event_type = some "worker-host.start";
  actor_role = some "ralph-wiggum-worker";
  swarm_role = some env.swarm_role;
  audit_logging_enabled = some true;
  dashboard_enabled = some true;
  human_approval = none;
  droidspeak_state = true;
  quorum_roles = none;
  guardian_vote = none;
  recurrent_engine = none;
  spectral_radius = none;
}

abbrev pub spawn_proposal : RalphEnvironment → RalphWorkerSessionRecord → ConsensusInput
spawn_proposal env session = record {
  proposal_type = "agent-spawn";
  title = "Persistent Ralph loop for " <> session.project_id;
  summary = session.goal;
  glyph = "RALPH_ITERATION";
  context = worker_context env;
  human_override = none;
}

pub record GateResult : Type 0 where
  pub halted : Bool
  pub consensus_id : Option String
  pub store : RalphStore

abbrev pub halted_by_governance : Option String → RalphWorkerSessionRecord → UpsertInput
halted_by_governance consensus_id session = record (of_session session) {
  status = RalphStatus.halted;
  governance_consensus_id = consensus_id;
  last_error = some "Guardian or quorum halted the Ralph worker session.";
  metadata = some (put session.metadata "governance" (MetaValue.text "halted"));
}

-- `requiresConsensus`
abbrev pub requires_consensus : RalphWorkerSessionRecord → Bool
requires_consensus session =
    ltb 8 session.max_iterations || is_set (get session.metadata "criticalPath")

abbrev pub gate_of_round : RalphMoment → RalphWorkerSessionRecord → RalphStore → Bool → GateResult
gate_of_round moment session store approved = record {
  halted = not approved;
  consensus_id = some moment.consensus_id;
  store =
      if approved
      then store
      else (upsert_ralph_worker_session moment.now
          (halted_by_governance (some moment.consensus_id) session) store).0;
}

-- `maybeRunGovernanceGate`
unfoldable pub maybe_run_governance_gate :
    RalphEnvironment → RalphMoment → RalphWorkerSessionRecord → RalphStore → GateResult
maybe_run_governance_gate env moment session store =
    if not (requires_consensus session) || truthy session.governance_consensus_id
    then record { halted = false; consensus_id = session.governance_consensus_id; store = store }
    else let (governance, round) =
        run_consensus_round env.registered moment.consensus_id moment.proposal_id
          (spawn_proposal env session) store.governance in
      gate_of_round moment session (record store { governance = governance }) round.approved

abbrev pub backend_text : ModelBackend → String
backend_text ModelBackend.apple_intelligence = "apple-intelligence"
backend_text ModelBackend.mlx = "mlx"
backend_text ModelBackend.local_llama = "local-llama"
backend_text ModelBackend.openmythos = "openmythos"

abbrev pub sum_lengths : List String → ℕ
sum_lengths [] = 0
sum_lengths (t ∷ ts) = text_length t + sum_lengths ts

abbrev pub iteration_context :
    RalphEnvironment → RalphWorkerSessionRecord → List String → ModelRouterContext
iteration_context env session memories = record {
  platform = env.platform;
  arch = env.arch;
  task_type = some "ralph-persistent-loop";
  stage = some "iterative-refinement";
  summary = some session.goal;
  context_length = some (text_length session.goal + sum_lengths memories);
  iteration_count_expected = none;
  self_correction_needed = none;
  long_horizon = none;
  polishing_phase = none;
  failure_recovery_mode = none;
  prefer_apple_intelligence = none;
  apple_runtime_available = none;
  mlx_available = none;
  mythos_available = some env.mythos_available;
  prefer_mlx = none;
}

abbrev pub last_of : ℕ → Option ℕ → ℕ
last_of max_iterations none = max_iterations
last_of max_iterations (some n) = max 1 n

-- The iteration that completes a session: `autoCompleteAfter`, or the maximum
abbrev pub last_iteration : RalphWorkerSessionRecord → ℕ
last_iteration session =
    last_of session.max_iterations (number_of (get session.metadata "autoCompleteAfter"))

abbrev pub completes : RalphWorkerSessionRecord → Bool
completes session = leb (last_iteration session) (suc session.iteration_count)

abbrev pub focus_of : RalphWorkerSessionRecord → List String → String
focus_of session [] = "Re-check the highest-value path for: " <> session.goal
focus_of session (m ∷ ms) = m

pub record RalphIteration : Type 0 where
  pub summary : String
  pub current_task : String
  pub completed : Bool
  pub engine : String
  pub route_kind : String

-- `synthesizeIteration`
unfoldable pub synthesize_iteration :
    RalphEnvironment → RalphWorkerSessionRecord → RalphStore → RalphIteration
synthesize_iteration env session store =
    let memories = env.retrieve_relevant_memories session.project_id session.goal store.memories in
    let signals = detect_ralph_signals session.goal session.metadata in
    let backend =
      (choose_backend_decision env.ralph_enabled
        (iteration_context env session memories)).backend in
    let focus = focus_of session memories in
    let summary = join " " (
      ("Iteration "
        <> decimal (suc session.iteration_count)
        <> " revisited the goal with a fresh context window.")
      ∷ ("Focus: " <> focus <> ".")
      ∷ (if ltb 0 (length memories)
          then "Recovered " <> decimal (length memories) <> " durable memories before acting."
          else "No durable memories matched yet, so the loop kept the goal and latest summary only.")
      ∷ (if signals.self_correction_needed
          then "The loop stayed in self-correction mode and tightened the next step."
          else "The loop generated the next refinement step from current evidence.")
      ∷ []) in
    record {
      summary = if completes session then summary <> " " <> session.completion_signal else summary;
      current_task = focus;
      completed = completes session;
      engine = backend_text backend;
      route_kind = "ralph-persistent-loop";
    }

abbrev pub iteration_memory : RalphWorkerSessionRecord → RalphIteration → RalphMemory
iteration_memory session iteration = record {
  project_id = session.project_id;
  droidspeak_summary = "RALPH_ITERATION " <> decimal (suc session.iteration_count);
  english_translation = iteration.summary;
  source_run_id = session.session_id;
  iteration = suc session.iteration_count;
}

abbrev pub next_session :
    String → Option String → RalphWorkerSessionRecord → RalphIteration → ℕ → UpsertInput
next_session now consensus_id session iteration memory_count = record (of_session session) {
  status = if iteration.completed then completed else running;
  iteration_count = some (suc session.iteration_count);
  engine = some iteration.engine;
  route_kind = some iteration.route_kind;
  current_task = some iteration.current_task;
  last_summary = some iteration.summary;
  governance_consensus_id = consensus_id;
  completed_at = if iteration.completed then some now else none;
  metadata = some (put session.metadata "lastMemoryCount" (number memory_count));
}

-- The part of an iteration behind the gate
unfoldable pub advance :
    RalphEnvironment
    → RalphMoment
    → Option String
    → RalphWorkerSessionRecord
    → RalphStore
    → RalphStore × RalphWorkerSessionRecord
advance env moment consensus_id session store =
    let iteration = synthesize_iteration env session store in
    let remembered : RalphStore = record store {
      memories = store.memories ++ (iteration_memory session iteration ∷ []);
      audit_events =
          store.audit_events
          ++ ((if iteration.completed then "RALPH_DONE" else "RALPH_ITERATION") ∷ []);
    } in
    let found =
      env.retrieve_relevant_memories session.project_id session.goal remembered.memories in
    upsert_ralph_worker_session moment.now
      (next_session moment.now consensus_id session iteration (length found)) remembered

-- What a halted gate leaves is read again.
abbrev pub reread : RalphMoment → RalphWorkerSessionRecord → RalphStore → RalphResult
reread moment session store = elim (get_ralph_worker_session session.session_id store) [
  | none ↦ done_of (
      upsert_ralph_worker_session moment.now (record (of_session session) { status = halted })
        store)
  | some found ↦ done store found
]

abbrev pub behind_gate :
    RalphEnvironment → RalphMoment → RalphWorkerSessionRecord → GateResult → RalphResult
behind_gate env moment session gate =
    if gate.halted
    then reread moment session gate.store
    else done_of (advance env moment gate.consensus_id session gate.store)

abbrev pub halted_by_laws :
    RalphMoment → String → RalphWorkerSessionRecord → RalphStore → RalphResult
halted_by_laws moment violations session store = done_of (
    upsert_ralph_worker_session moment.now
      (record (of_session session) { status = halted; last_error = some violations }) store)

abbrev pub iterate :
    RalphEnvironment → RalphMoment → RalphWorkerSessionRecord → RalphStore → RalphResult
iterate env moment session store =
    let compliance = validate_compliance (worker_context env) none store.governance in
    if compliance.ok
    then behind_gate env moment session (maybe_run_governance_gate env moment session store)
    else halted_by_laws moment (violation_text compliance) session store

abbrev pub iterate_found :
    RalphEnvironment
    → RalphMoment
    → String
    → RalphStore
    → Option RalphWorkerSessionRecord
    → RalphResult
iterate_found env moment session_id store none = threw (unknown_session session_id)
iterate_found env moment session_id store (some session) =
    if is_running session.status then iterate env moment session store else done store session

-- `runRalphIteration`
unfoldable pub run_ralph_iteration :
    RalphEnvironment → RalphMoment → String → RalphStore → RalphResult
run_ralph_iteration env moment session_id store =
    iterate_found env moment session_id store (get_ralph_worker_session session_id store)
