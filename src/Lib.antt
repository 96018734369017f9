-- ===== src/Lib.antt =====
-- The Wireguard Ops Cockpit: a control plane (apps/api) through which an automation account orders
-- changes to a host and an operator decides about them. This library models the parts of apps/api
-- that decide, as functions on explicit state, and proves what makes them safe.
--
-- The parts and how they interact:
--   Base        what the modules share: Boolean tests, lists with native lengths, a stable sort,
--               equality as an instance (`==`), JSON values, texts with `trim` and `slice`, and
--               tables with the SQL statements that the source runs on them.
--   Breaker     apps/api/src/circuit-breaker.ts: `evaluateBreaker` over the failures that
--               `listChangeFailuresSince` reads. Breaker/Closing compares it with counting.
--   Checkpoint  apps/api/src/app.ts: the checkpoints of a runbook: parsing of what a plan and a
--               job's output store, `createInitialCheckpointState` and `advanceCheckpointState`.
--   Envelope    apps/api/src/hermes-security.ts: the execution envelope: create, validate, approve,
--               renew, extend; Envelope/Intake is `normalizeEvidence`. Envelope/Life follows one
--               envelope through its renewals.
--   Store       apps/api/src/db.ts with the rows of packages/domain/src/index.ts: Accounts (users,
--               browser sessions, API tokens), Sessions, Jobs, Approvals, Audits, Plans,
--               Schedules, and the Listings over them.
--   Login       apps/api/src/app.ts: POST /api/auth/login with the throttle of failed attempts, logout,
--               and `requireActor`; it calls Store/Accounts. `toLowerCase` is a parameter.
--   Registry    apps/api/src/registries.ts: the runbooks, scripts and agents that a plan may name,
--               the registration of dynamic runbooks, the digests that pin a runbook or an agent
--               (Registry/Encoding), the built-in tables (Registry/Scripts, Registry/Runbooks), and
--               the command of a runbook with the `launchCommand` of
--               packages/tmux-adapter/src/index.ts (Registry/Dispatch).
--   Plan        apps/api/src/app.ts: the plans. Reviewing has the plan's hash and
--               `resolveRunbookPlanState`; Creating and Launching make plans of runbooks and agents;
--               Recording stores what waits, is ready or is blocked; Executing dispatches; Deciding
--               is POST /api/approvals/:id/decision, on the steps of Approving; Requests the execute and launch routes;
--               Checkpoints the advance route and the deletion of a runbook.
--               Plan/Inner, Plan/Quiet and Plan/Dispatching say what the steps leave alone.
--   Schedule    apps/api/src/app.ts: `computeNextWeeklyRunAt`; Requests has the routes of
--               schedules, Running `processDueScheduledRunbooks`, on Plan, Registry and Store.
--   Retention   deploy/helpers/cockpit-borg-retention-rules.mjs and apps/api/src/borg-retention.ts: which
--               retention of the backups may be set.
--   Hermes      apps/api/src/app.ts: the change jobs. Hermes holds a job's output and
--               `updateHermesJob` (Updating), whose failure audits are what Breaker reads; Review is
--               `envelopeErrorsFor`; Deciding and Approval are POST /api/hermes/jobs/:id/approval
--               with the breaker override; Reactivating and Withdrawing are the handlers of these
--               names; Recovering is `recoverInterruptedJob`, and Recovering/Life follows a job over restarts
--               and updates. They update the tables of Store and the envelopes of Envelope.
--
-- How the code corresponds to the model:
--   * A function or handler takes the state (`Db`, with the job output as a parameter, `World` where
--     it is that of Hermes) and returns the new one with its result. A handler has one step for each
--     stretch without an `await`; the approval has two, `decide` and `start_approved`, and what the
--     handler still holds between them is a record. Other requests may change the state there.
--   * An exception is `none` or a constructor of a result type; a reply with an error code is a value.
--   * A time is its number of milliseconds since the epoch, and a call reads the clock once. Ids that
--     `randomUUID` returns are arguments. SQLite's `datetime` cuts a time to seconds, as the
--     queries do.
--   * The handlers of Plan and of the schedules are in the monad of Base/Actions: a state, and a value
--     or a thrown error that leaves the writes before it. Their state (Plan.World) is the database,
--     the registry, the commands that tmux has taken, and a counter from which `randomUUID`
--     draws. The verdict of the safety review, which the handler awaits, is an argument; nothing else
--     runs in between. `buildAgentCommand` and the call of tmux are parameters.
--   * The scheduler's locks are an argument; the schedules of one run are processed one after
--     another.
--   * A table is the list of its rows in the order of insertion.
--   * SHA-256, the HMAC, the password check and Node's `path.resolve` are parameters. The signature
--     is taken over the record, so the order of JSON keys is abstracted. Theorems that need a
--     signature to verify assume that the HMAC is 64 hexadecimal digits.
--   * A JSON number is a natural number, a negative integer, or another one known by its text; a
--     job's output is a record of the fields that the handlers read, with `none` for a missing one.
--     `neededToContinue` and `recommendedAction`, texts that no code reads, are left out.
--
-- No loop of the modelled code is on fuel: each runs over a list. Only the digits of a number in a
-- text (`decimal`) are computed on fuel, with the number itself, which exceeds the count of its digits
-- less one.
--
-- Not modelled: HTTP, cookies and the server's setup; the executor broker, the processes of the agents
-- and of tmux, also `listSessions`; the prompts and the reviews that language models write; the run
-- that an approval starts in the background, and how a host run is followed over a restart; the
-- table of the agents, which is an argument; the web client; the status of Borg and the retention
-- service itself; the update review; configuration. A started run is the field `starts_run` of the
-- reply.
pub mod Base
pub mod Breaker
pub mod Checkpoint
pub mod Envelope
pub mod Hermes
pub mod Login
pub mod Plan
pub mod Registry
pub mod Retention
pub mod Schedule
pub mod Store
