-- ===== src/Lib.antt =====
-- A model of the board's server and of the protocol library it uses, with theorems about them.
--
-- The program is a kanban board whose tasks are run by agents: by processes of the server, or by
-- remote workers that poll for assignments, claim a task under a lease, and give it back. The state
-- is a relational database; the handlers and timers change it by single statements, so that their
-- interleavings are sequences of statements.
--
-- - Prelude (Tests, Lists, Search): Boolean tests, the equality interface, lists and membership.
-- - Board (Defs, Lifecycle): the enumerations of shared/types.ts and the tables of
--   shared/constants.ts.
-- - A2a (State, Assignments, Events, EventHub, Cancellations): packages/a2a/src/state.ts, between the
--   board's lifecycle and the protocol's states; assignment.ts, handoffs as messages; events.ts, the
--   board's events as updates; packages/server/src/a2a/event-hub.ts and cancellations.ts.
-- - Access: packages/server/src/middleware/auth.ts, which requests are admitted.
-- - Workflow (Policy, RunStore): packages/server/src/services/workflow-policy.ts, the review rounds,
--   and repositories/workflow-store.ts, the runs that the board coordinates, as versioned documents.
-- - Workflow (Coordinator): packages/server/src/services/board-workflow.ts. Session is the run that
--   an operation holds, with the list of its effects, the newest first, and the outside's answers;
--   Dispatching, Projecting, Settling, Operations and Ticking hold `dispatch`, `project`, `settle`,
--   `start`, `approve`, `cancel`, `retry` and `tick`; Runs the operations as one type and the
--   documents that they may save, Soundness the proofs. Within one operation the clock stands
--   still. The endpoint client, the verification of evidence, JSON printing, number printing and
--   normalizeRepoUrl are functions of the surroundings.
-- - Store: packages/server/src/repositories. Table is a keyed table with guarded updates; Rows the
--   columns; Tasks and Claims the statements of sqlite.ts (`get_by_id`, `update`, `request_run`,
--   `claim_run`, `create_idempotent`, `assign_to_worker`, `claim_worker_task`, ... are its getById,
--   update, requestRun, ...); Workers those of sqlite-workers.ts; Events the table of events and the
--   count of pending proposals of services/work-requests.ts; Enrollment the codes of
--   sqlite-enrollment-codes.ts; Agents the record of probes of sqlite-a2a-agents.ts. Claims.Row
--   lists the statements on tasks as one language of operations, over whose sequences the theorems
--   on claims range.
-- - Recovery: worker-sweep-recovery.ts, startup-recovery.ts, run-dispatcher.ts and the sweep of
--   index.ts, all under packages/server/src, as compositions of the statements.
-- - Contract (Json, Text, Check, Assignment, Result): shared/execution.ts, the validation of
--   assignments and results between the board and its endpoints.
-- - Groups (Dependencies, Queue): validateChildDependencies of packages/server/src/routes/groups.ts;
--   the queue of a group's children of services/agent-manager.ts, whose drains and callbacks are
--   steps. A drain has as much fuel as there are pending children: each start takes one out.
-- - Broadcast: emitEvent of services/agent-manager.ts, with the bounded logs, the buffers of streamed
--   events and their timers, and the clearing of a task's events.
-- - Scenarios: concrete runs.
--
-- A statement is a function on the database that returns the new one and what the caller is given.
-- A failing insertion is `none`. JSON columns hold decoded values, and NULL is `none`. Times are
-- natural numbers of milliseconds; a difference of times stops at 0, which a clock's reading never
-- reaches. SQLite's `lower`, its order of texts and the platform's URL parser are parameters. The
-- search for a cycle has as much fuel as there are children, and one more: a path of the search
-- meets no child twice before it stops.
--
-- Not modelled: the client, sockets, the running of agents, network calls, the PostgreSQL
-- repositories, which repeat the statements in another dialect, and the columns of a task that the
-- scheduling does not touch, which are kept as one value.
pub mod A2a
pub mod Access
pub mod Board
pub mod Broadcast
pub mod Contract
pub mod Groups
pub mod Prelude
pub mod Recovery
pub mod Scenarios
pub mod Store
pub mod Workflow
