-- ===== src/Lib.antt =====
-- A model of Equinox, a perpetuals exchange whose markets live on Solana (L1) and are delegated for
-- trading to an ephemeral rollup (ER), and what holds of its TypeScript code: the Worker that
-- indexes markets and runs keepers on them, and the client that shows them.
--
-- The parts. Account bytes reach the Worker from both domains. From them it keeps each market's
-- execution record, a mark price, and the V3 shards. Events of a market are appended to an index in
-- D1 and published by a durable object to its sockets; a client tracks their sequence. Keepers run
-- under leases of the protocol repository, once for an idempotency key, and leave a dead letter
-- where they fail; policies tell them when to commit, to fund, to liquidate and to change the mode
-- of a market. The client derives from the Worker's answers where orders go and what is shown. What
-- the Worker wants done on chain it encodes as instructions of the program, sends as transactions and
-- waits for; the accounts and events it follows come over a subscription transport.
--
-- Which file models which part, by the paths of the repository:
--   Execution, Execution/Reconcile   workers/src/execution-status.ts
--   Store, Keeper, RateLimits, DeadLetters, Records   workers/src/repositories.ts (backoff.ts)
--   Keeper/Run      workers/src/keepers.ts
--   Indexer         workers/src/indexer-service.ts and IndexerRepository of repositories.ts
--   Stream          workers/src/market-stream.ts
--   Recovery        lib/sequence-recovery.ts
--   Mark            workers/src/mark-price.ts
--   V3              workers/src/v3-market-state.ts and lib/positions.ts
--   Risk            workers/src/risk-model.ts, funding-source.ts and liquidation-scanner.ts
--   Risk/Sweep      workers/src/liquidation-discovery.ts
--   Sessions        workers/src/session-calendar.ts, sessionTransitionFor of keeper-jobs.ts
--   Commits         workers/src/commit-policy.ts
--   Routing         lib/execution-status.ts
--   Lifecycle       lib/lifecycle.ts
--   Oracle          lib/oracle-safety.ts
--   Orders          lib/open-orders.ts
--   Bytes/Codec     clients/equinox/src/abi/encoding.ts
--   Transactions    workers/src/transactions.ts: Writer its DataWriter, Encode and Sharded the
--                   instructions, Builders the transactions of the keepers
--   Program         programs/equinox/src/instruction.rs, the decoder that the instructions are for;
--                   Program/Oracle its check of an oracle update in handlers.rs
--   Transport       workers/src/ws-transport.ts
--   Jobs            workers/src/keeper-jobs.ts, the Pyth, commit and cleanup ticks
--   Confirm         workers/src/chain-transports.ts
-- A function of the source keeps its name, in snake case, and a type its own. Prelude holds what
-- the modules share, Examples the theorems at concrete inputs.
--
-- How the code is modelled. A transition is a function on a record. A method of a repository takes
-- a store, whose tables are functions from the primary key, and gives a result or an error with the
-- store after it; each SQL statement is one step. `try`, `catch` and `finally` are combinators. The
-- work of a keeper is any call on the store, so that whatever other workers write meanwhile is part
-- of it. Time is an argument.
--
-- Numbers. A JavaScript number that holds a count, a sequence or a time is a natural number, its
-- checks against Number.MAX_SAFE_INTEGER written out; a bigint is an integer. `Number(v)` of a
-- 64-bit sequence in the execution record is rounded as a double is, and so is every number that the
-- mark of mark-price.ts is computed from. A byte is a natural number below 256.
--
-- Loops. All are by recursion on a list or on what is left of a count, but for the walk of a tree in
-- Mark, which has the 2048 steps of the source's own bound, and the polls of confirmTransaction,
-- which are on fuel: one more than the intervals that fit into the timeout is enough.
--
-- Events. The WebSocket transport is a state with a step for each listener, timer and method, and
-- any sequence of them is a run.
--
-- Not modelled: React views, routing of HTTP, configuration, the network, cryptography, the
-- compiling and signing of a message (@solana/kit), the decoder of event frames, the funding, session
-- and liquidation ticks, the annotation of the V3 book's trees and the V3 aggregate, the instruction
-- builders of the client, and the handlers of the program on chain. Local time (`Intl`), the snapshot
-- fetcher, the check of an address, the classification of an error by its message and what a node
-- answers are arguments.
pub mod Prelude
pub mod Bytes
pub mod Confirm
pub mod Execution
pub mod Store
pub mod DeadLetters
pub mod Jobs
pub mod Keeper
pub mod RateLimits
pub mod Program
pub mod Recovery
pub mod Stream
pub mod Transactions
pub mod Transport
pub mod Records
pub mod V3
pub mod Orders
pub mod Routing
pub mod Commits
pub mod Lifecycle
pub mod Oracle
pub mod Risk
pub mod Indexer
pub mod Sessions
pub mod Mark
mod Examples
