-- ===== src/Ralph/Loop.antt =====
-- The operations on persistent workers and their loop: packages/shared-skills/src/ralph-loop.ts.
use droid_swarm.Prelude.{
  ℕ, zero, suc, String, if◌then◌else◌, get_or, Option, none, some, [], ◌∷◌, ◌++◌,
}
use droid_swarm.Ralph.Sessions.{
  RalphMetadata, running, paused, RalphWorkerSessionRecord, UpsertInput, RalphStore, of_session,
  upsert_ralph_worker_session, get_ralph_worker_session,
}
use droid_swarm.Ralph.Signals.{PartialLoopConfig, RalphLoopConfig, normalize_loop_config}
use droid_swarm.Ralph.Iteration.{
  RalphEnvironment, RalphMoment, ralph_disabled, unknown_session, session_disappeared, RalphResult,
  done, threw, done_of, is_running, run_ralph_iteration,
}

pub record StartRalphWorkerInput : Type 0 where
  pub project_id : String
  pub goal : String
  pub worker_name : Option String
  pub loop_config : PartialLoopConfig
  pub metadata : Option RalphMetadata

abbrev pub audited : String → RalphStore → RalphStore
audited event_type store = record store { audit_events = store.audit_events ++ (event_type ∷ []) }

abbrev pub new_session :
    RalphEnvironment → String → String → StartRalphWorkerInput → RalphLoopConfig → UpsertInput
new_session env session_id default_name input loop_config = record {
  session_id = session_id;
  project_id = input.project_id;
  worker_name = get_or input.worker_name default_name;
  goal = input.goal;
  status = running;
  iteration_count = none;
  max_iterations = loop_config.max_iterations;
  completion_signal = some loop_config.completion_signal;
  sleep_ms = some loop_config.sleep_ms;
  engine = none;
  route_kind = none;
  assigned_node_id = env.federation_node_id;
  current_task = none;
  last_summary = none;
  last_error = none;
  governance_consensus_id = none;
  metadata = some (get_or input.metadata []);
  started_at = none;
  paused_at = none;
  completed_at = none;
}

-- `startRalphWorker`, with the id that `randomUUID` gives, the name that the time gives, and without
-- the process that it spawns
unfoldable pub start_ralph_worker :
    RalphEnvironment → String → String → String → StartRalphWorkerInput → RalphStore → RalphResult
start_ralph_worker env now session_id default_name input store =
    let (started, session) =
      upsert_ralph_worker_session now
        (new_session env session_id default_name input (normalize_loop_config input.loop_config))
        store in
    if env.ralph_enabled
    then done (audited "RALPH_ITERATION" started) session
    else threw ralph_disabled

abbrev pub as_paused : String → RalphWorkerSessionRecord → UpsertInput
as_paused now session = record (of_session session) { status = paused; paused_at = some now }

abbrev pub as_resumed : RalphWorkerSessionRecord → UpsertInput
as_resumed session = record (of_session session) {
  status = running;
  paused_at = none;
  last_error = none;
}

-- `pauseRalphWorker`
unfoldable pub pause_ralph_worker : String → String → RalphStore → RalphResult
pause_ralph_worker now session_id store = elim (get_ralph_worker_session session_id store) [
  | none ↦ threw (unknown_session session_id)
  | some session ↦
      let (updated, row) = upsert_ralph_worker_session now (as_paused now session) store in
      done (audited "RALPH_PAUSE" updated) row
]

-- `resumeRalphWorker`, without the process that it spawns
unfoldable pub resume_ralph_worker : String → String → RalphStore → RalphResult
resume_ralph_worker now session_id store = elim (get_ralph_worker_session session_id store) [
  | none ↦ threw (unknown_session session_id)
  | some session ↦ done_of (upsert_ralph_worker_session now (as_resumed session) store)
]

-- What goes on around a loop: the moment of each iteration, and what other processes do to the
-- tables while the loop sleeps. Both go by the rounds that are left.
pub record RalphSchedule : Type 0 where
  pub moment : ℕ → RalphMoment
  pub meanwhile : ℕ → RalphStore → RalphStore

-- What the loop does with the result of an iteration; the first argument is the rest of the loop.
abbrev pub after_sleep :
    (RalphStore → RalphWorkerSessionRecord → Option RalphResult)
    → String
    → RalphStore
    → Option RalphWorkerSessionRecord
    → Option RalphResult
after_sleep rest id store none = some (threw (session_disappeared id))
after_sleep rest id store (some refreshed) = rest store refreshed

abbrev pub after_iteration :
    (RalphStore → RalphWorkerSessionRecord → Option RalphResult)
    → (RalphStore → RalphStore)
    → String
    → RalphResult
    → Option RalphResult
after_iteration rest meanwhile id (threw e) = some (threw e)
after_iteration rest meanwhile id (done store session) =
    if is_running session.status
    then after_sleep rest id (meanwhile store) (get_ralph_worker_session id (meanwhile store))
    else some (done store session)

-- One turn of the `while` loop
abbrev pub turn :
    (RalphStore → RalphWorkerSessionRecord → Option RalphResult)
    → (RalphStore → RalphStore)
    → String
    → RalphResult
    → RalphStore
    → RalphWorkerSessionRecord
    → Option RalphResult
turn rest meanwhile id result store session =
    if is_running session.status
    then after_iteration rest meanwhile id result
    else some (done store session)

-- The `while` loop, with the rounds that are left; `none` says that they ran out.
unfoldable pub rounds :
    RalphEnvironment
    → RalphSchedule
    → String
    → ℕ
    → RalphStore
    → RalphWorkerSessionRecord
    → Option RalphResult
rounds env schedule id zero store session =
    if is_running session.status then none else some (done store session)
rounds env schedule id (suc left) store session =
    turn (rounds env schedule id left) (schedule.meanwhile left) id
      (run_ralph_iteration env (schedule.moment left) id store) store session

abbrev pub loop_found :
    RalphEnvironment
    → RalphSchedule
    → ℕ
    → String
    → RalphStore
    → Option RalphWorkerSessionRecord
    → Option RalphResult
loop_found env schedule fuel id store none = some (threw (unknown_session id))
loop_found env schedule fuel id store (some session) = rounds env schedule id fuel store session

-- `runRalphLoop`
unfoldable pub run_ralph_loop :
    RalphEnvironment → RalphSchedule → ℕ → String → RalphStore → Option RalphResult
unfolding rounds
run_ralph_loop env schedule fuel id store =
    loop_found env schedule fuel id store (get_ralph_worker_session id store)
