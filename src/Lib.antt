-- ===== src/Lib.antt =====
-- DroidSwarm: a local-first swarm of coding agents. This library models the parts of the program
-- that decide, and proves what they promise.
--
-- The program. apps/orchestrator is the control plane: it keeps runs, tasks and attempts in a
-- database, schedules agents on them and recovers them after a restart. apps/socket-server relays
-- the messages of operators and agents through rooms. packages/* hold what these share: the
-- tamper-evident audit log, the federation bus between swarms, governance, routing.
--
-- Prelude: names shared by all modules; JavaScript's `Map` and `Set` as lists in the order of
-- insertion (Prelude/Maps, Prelude/Sets), template texts (Prelude/Text), and the trimming and splitting
-- of texts (Prelude/Words, Prelude/Joined), whose letters are ASCII.
--
-- Audit: packages/shared-tracing/src/audit-logger.ts. Audit/Json has the payloads and
-- `stableSerialize`, Audit/Log the table, the logger's cached state, `appendAuditEvent` and
-- `verifyChain`, Audit/Merkle `getMerkleRoot` and `exportProof`. The loops over a Merkle level have
-- the number of leaves for fuel; Audit/Replay proves that it suffices. `toEvent`, and so
-- `exportProof`, has an exception where a payload cannot be read back. sha256, gzip,
-- `JSON.parse` and the signatures are the fields of the record `Platform`. The node and swarm ids
-- and the time of an event, which the code takes from its environment, come with the event.
--
-- Federation: packages/federation-bus/src/index.ts. Federation/Wire has the payloads,
-- Federation/Signing the signature check, Federation/Bus the state of `startFederationBus` and a
-- function for each route; a handler gives the new state, the response and the URLs that the event
-- is forwarded to. Requests stand as the schemas of zod leave them, and node:crypto is the record
-- `Keys`. The sequence number and the counters are unbounded natural numbers.
--
-- Runs: apps/orchestrator/src/run-lifecycle.ts and apps/orchestrator/src/run-shutdown.ts.
-- Runs/Records has the records of apps/orchestrator/src/types.ts, Runs/Store the tables of
-- apps/orchestrator/src/persistence/repositories.ts that runs use, each a map by its primary key,
-- and Runs/Lifecycle the operations. A time is its ISO text, and one operation reads the clock once.
--
-- Scheduler: apps/orchestrator/src/scheduler/TaskScheduler.ts. Scheduler/State has its state and the
-- operations of apps/orchestrator/src/persistence/service.ts that it calls, Scheduler/Gate `canRun`
-- and the retries, Scheduler/Policy the task policies, Scheduler/Stages the stage tasks.
-- `getTaskDepth` has fuel and no result without enough of it; Scheduler/Depth says how much is
-- enough. Scheduler/Results has what is kept about results, Scheduler/Handlers what each stage's
-- result does, up to the call of `schedule` that follows, Scheduler/Followups the tasks that come of
-- it, Scheduler/Groups and Scheduler/Resolve the parallel groups, their arbitration and
-- `resolveParentIfReady`, Scheduler/Parallel how requests for helpers become tasks, and
-- Scheduler/Usage the limits on usage, with what `handleAgentResult` does before it looks at the
-- stage. Launching agents, creating child tasks and compressing checkpoints are not modelled, nor
-- are pull requests, of which a handler only names the task.
--
-- Rooms: apps/socket-server/src/rooms. Rooms/Room is `Room`, Rooms/Manager `RoomManager`; a socket is
-- whether it is open.
--
-- Governance: packages/shared-governance/src. Governance/Laws has the built-in laws,
-- Governance/Compliance `validateCompliance`, Governance/Store the proposals and the histories,
-- Governance/Consensus `runConsensusRound`, Governance/Debate `runGovernanceDebate`. A spectral
-- radius is a fraction. Hashes, times, audit payloads and SYSTEM_LAWS.md are not modelled.
--
-- Supervisor: apps/orchestrator/src/AgentSupervisor.ts and apps/orchestrator/src/worker-registry.ts.
-- Supervisor/Registry is `WorkerRegistry`, Supervisor/Agents `AgentSupervisor`; processes are outside
-- the model, and the end of one is an event.
--
-- Router: `chooseBackendDecision` of packages/model-router/src/index.ts; Router/Hints searches a text
-- for hints without regard to the case of ASCII letters.
--
-- Routing: packages/shared-routing/src. Routing/Roles has the catalogue of roles, Routing/Decision
-- `RoutingService`, which asks the model router. Texts are read without regard to case, as the code
-- lowers them first, and a confidence is in hundredths. The audit event of a route is not modelled.
--
-- Ralph: packages/shared-skills/src/ralph-loop.ts. Ralph/Sessions has the table of sessions of
-- packages/shared-projects/src/index.ts, Ralph/Signals the settings and the signals in a goal,
-- Ralph/Iteration `runRalphIteration` with its check of the laws and its consensus round, Ralph/Loop
-- the loop, which has rounds as fuel, and the starting, pausing and resuming of workers. What other
-- processes do while the loop sleeps is a function on the tables. The ranking of memories, which
-- works on floating-point embeddings, is a parameter; the detached process is not modelled.
--
-- Operator: apps/orchestrator/src/operator. Operator/Intents is `parseOperatorIntent`,
-- Operator/Actions `OperatorActionService` on the tables of the scheduler and the state of the
-- supervisor.
mod Prelude
pub mod Audit
pub mod Federation
pub mod Runs
pub mod Scheduler
pub mod Rooms
pub mod Governance
pub mod Supervisor
pub mod Router
pub mod Routing
pub mod Ralph
pub mod Operator
