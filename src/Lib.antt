-- ===== src/Lib.antt =====
-- The event log, the limits, the policy, the schedules and the delegation of the kernel (src/events,
-- src/runtime, src/policy, src/models, src/goals/plan.ts, src/mcp/names.ts, src/control/actor.ts and the
-- crash recovery of src/kernel.ts), and the theorems that make them correct.
--
-- The kernel runs agents. Each agent's call of a tool passes the policy engine, which asks the gate for
-- a verdict, a person for an approval where the verdict wants one, and mints a ticket that is bound to the
-- arguments. Output that an outsider chose the words of is held in quarantine. Runs are kept within
-- budgets and lanes. Whatever happens is a row of an append-only log whose rows are chained by hashes, and
-- whose head is vouched for by an anchor file. When the kernel boots it projects the log and closes what
-- an earlier process left open. Runs start by a schedule, or by an orchestrator that adopts a plan and hands
-- its tasks to workers.
--
-- Files:
--   Common, Common/*        lists and texts over native numbers, `Map` of JavaScript, a stable sort,
--                           integers, Option. A text is its list of UTF-16 units.
--   Events/Canonical        src/events/canonical.ts: `canonicalize`, `canonicalHash`
--   Events/Redact, Bound, Types
--                           src/events/redact.ts, bound.ts, types.ts; Bound/Utf8 the bytes of a text and
--                           `utf8CutPoint`, Output `boundOutput` and `recordable`, Cut where it cuts
--   Events/Chain            src/events/chain.ts, anchor.ts: `hashRow`, `verifyChain`
--     Chain/Digest          what a digest says of a row
--     Chain/Accepts         which logs are accepted
--     Chain/Tamper          what an accepted log cannot hide
--   Events/Store            src/events/store.ts, schema.ts: class `EventStore`
--     Store/Data, Payload   its fields and results, and the payload of a row
--     Store/Append, Tail, Sound, Lifecycle, Trust, Query
--                           each append, the tail, the invariant, the life of a store, its trust,
--                           `query`
--   Events/Projections      src/events/projections.ts: `projectRecovery`; Projections/Replay the loop
--     Projections/Recover   src/kernel.ts: the rows that boot appends
--     Projections/Filed, Closing, Listed, Settled
--                           its maps, what each row closes, what the rows are for, what is left open
--   Runtime/Budget          src/runtime/budget.ts
--   Runtime/Semaphore       src/runtime/lanes.ts: class `Semaphore`
--   Runtime/Cron            src/runtime/cron.ts; Cron/Match the whole expression, Cron/Bounds, Steps,
--                           Days what is selected; Cron/Key `minuteKey`, Distinct what it keeps apart
--   Runtime/Scheduler       src/runtime/scheduler.ts: class `Scheduler`; Scheduler/Claims, Once its claims
--   Runtime/Delegation      src/runtime/delegate.ts: class `Delegation`, `adopt_plan`; Delegation/Handoff
--                           `delegate`; Ordered, Kept, Handed, Depth, Reached its invariant,
--                           Admissible, Launched what a launch has passed
--   Goals/Plan              src/goals/plan.ts: `findCycle`; Plan/Coherent `assertPlanCoherent`, Extract
--                           `extractJson`, Parse `parsePlan`; Chain, Cycle, Acyclic, Checks, Accepted, Braces what they decide
--   Mcp/Names               src/mcp/names.ts; Names/RoundTrip the two directions
--   Models/Usage, Cost      src/models/usage.ts, cost.ts
--   Policy/Gate             src/policy/gate.ts; Gate/Paths the protected paths, Laws, Allowed the verdicts
--   Policy/Actor            src/control/actor.ts
--   Policy/Quarantine       src/policy/quarantine.ts: class `Quarantine`
--   Policy/Approvals        src/policy/approvals.ts: class `Approvals`; Approvals/Exact its
--                           invariant, Once, Consent what follows
--   Policy/Engine           src/policy/engine.ts
--   Tests, Tests/*          a runtime that meets the laws, and the theorems at concrete inputs
--
-- How it is modelled. An object is a record of its fields and an operation returns the new record;
-- what throws returns a result with the failure, and the state that the code has left by then. Ids and
-- clock readings are arguments. Promises, timers and listeners are what they did: the permits that were
-- granted, the outcomes that were settled, the timers that are armed, the rows that were delivered. Approvals
-- have no callbacks, as src/kernel.ts makes them.
-- Concurrency is that of one JavaScript thread: callers' operations come in any order, as a list of actions
-- or a step relation. SQLite's table is the list of its rows with its sequence counter. Where a component
-- only appends to the store, whether the store takes the row is an argument.
--
-- Parameters: `Js` (JSON.stringify of a string, decimal digits, SHA-256) with its laws `JsLaws`, of which
-- one is that SHA-256 has no collision; the zod schemas of the payloads; the replacements of the credential
-- patterns; the check of the table's triggers when a store opens; the text of a preview; JSON.parse of a
-- row; the decoding of UTF-8; Date.parse, in the duration of a run; the registry's agents, the writer of
-- goals and the launch of a run. In `Recorded` the payload of a row has under each key the value that boot
-- asked the store to append, in whatever order of the keys; redaction is taken to have changed none. Numbers are naturals and integers; canonical JSON refuses those beyond 2^53 - 1,
-- and the counters of the runtime are taken to stay below it. Loops are structural recursion; the stepped
-- loop of a cron term has fuel for each number of its range, which is enough since a step is not zero. The
-- decimal digits of a number have fuel for its value and one. The search of a plan has fuel for each task
-- and one, which is enough since a walk marks a task that had no mark, or has no dependencies to go to.
--
-- Not modelled: the file system and SQLite below the store, `Lanes.enqueue`, the schemas of a
-- plan, the kill of a delegated run with its parent or by its timeout, and the files of src/ that are not
-- named above.
pub mod Common
pub mod Events
pub mod Runtime
pub mod Policy
pub mod Models
pub mod Mcp
pub mod Goals
mod Tests
