-- ===== src/Lib.antt =====
-- A verification library for opencode-a2a-serve, a server that offers the A2A protocol in front of
-- OpenCode. It covers the parts that keep state between requests, one execution with its stream, and the
-- JSON-RPC methods that act on sessions and interrupts:
--
-- - Base: Python's equality, `dict`, `sorted`, `str` and JSON values, which all parts share. A `dict`
--   is a list of entries in insertion order. Integers that may be negative are ℤ, all others ℕ.
-- - Cache: `_TTLCache` of src/opencode_a2a/execution/stream_state.py, with one function per method.
--   Cache.Bounds is about its size, Cache.Eviction about what an eviction takes, Cache.Freshness about
--   what a read returns.
-- - Tables: the SQL statements of src/opencode_a2a/server/state_store.py as functions on a table, which
--   is a dictionary by its primary key; Tables.Laws says what a statement leaves.
-- - Sessions.Repository: the abstract class `SessionStateRepository` as a record of operations.
--   Sessions.Memory (over Cache) and Sessions.Database (over Tables) are the two implementations, with
--   the methods under their own names. Sessions.Claims.Contract is what both promise of pending claims,
--   and Sessions.Claims.Held says which of them leave a claim alone.
-- - Sessions.Manager: `SessionManager` of src/opencode_a2a/execution/session_manager.py over any
--   repository. Each critical section under `self._lock` is a function; `advance` runs the next section
--   of a call, and `run` any interleaving of calls, so that two requests of different callers may meet
--   between any two sections.
-- - Interrupts: the records of src/opencode_a2a/runtime_state.py and the repositories of interrupt
--   requests of src/opencode_a2a/server/state_store.py, in memory (Interrupts.Memory, whose listing is
--   looked at in Interrupts.Memory.Listed) and on a database (Interrupts.Database), with the contract of
--   both in Interrupts.Contract; Interrupts.Life follows one request through any other calls.
-- - Tasks: src/opencode_a2a/server/task_store.py and src/opencode_a2a/task_states.py: the write policy
--   (Tasks.Policy), the decorators over any inner store (Tasks.Store) and the guarded upsert of a
--   database (Tasks.Database), where other connections may write between its statements.
-- - Stream: src/opencode_a2a/execution/stream_state.py (Stream.Output), stream_events.py
--   (Stream.Events and below), upstream_error_translator.py with src/opencode_a2a/upstream_taxonomy.py
--   (Stream.Errors), and stream_runtime.py: the chunks of message parts (Stream.Chunks), what goes into
--   the event queue (Stream.Emission), events of the session (Stream.SessionEvents), events on message
--   parts and the loop over events (Stream.Runtime), and the loop over connections (Stream.Connections).
-- - OutputModes: src/opencode_a2a/output_modes.py: what is left of a payload for a client that accepts
--   only some media types, the metadata that record the modes (OutputModes.Metadata), and
--   `NegotiatingResultAggregator` over the task manager of the SDK (OutputModes.Aggregator).
-- - Execution: src/opencode_a2a/execution/coordinator.py. Execution.Replies is what an execution
--   puts into its event queue: the reply of the upstream, with or without streaming, the handlers
--   of exceptions in `run`, and `_emit_error` of src/opencode_a2a/execution/executor.py.
--   Execution.Coordinator is `run` itself with `_bind_session` and `_cleanup`, in any interleaving
--   of executions that share the session manager, the locks of the sessions and the executor's
--   tables (Execution.World); Execution.Coordinator.Locking is about the locks, and
--   Execution.Coordinator.Registered about the tables. Execution.Cancel is `cancel` of
--   src/opencode_a2a/execution/executor.py, of an execution that has its lock (Execution.Cancel.Sending)
--   or waits for it (Execution.Cancel.Stops.Waiting). The awaits of `_cleanup` are taken as one step, in
--   which no cancellation comes.
-- - Rpc: the handlers of src/opencode_a2a/jsonrpc. Rpc.Errors are the errors of error_responses.py;
--   Rpc.Common, Rpc.Metadata (with src/opencode_a2a/metadata_access.py), Rpc.Failures and
--   Rpc.ClaimGuard, which is `SessionClaimGuard` (a release that raises leaves the claim), make up
--   handlers/common.py; Rpc.Methods, Rpc.Validation and Rpc.Messages are the parsers, the validators and the mapping of messages of
--   methods.py. On them stand Rpc.InterruptCallbacks (handlers/interrupt_callbacks.py),
--   Rpc.InterruptQueries (handlers/interrupt_queries.py),
--   Rpc.SessionControl (handlers/session_control.py) and Rpc.Queries (handlers/session_queries.py
--   with params.py and src/opencode_a2a/parsing.py). A handler gives its response, what it sent to
--   the upstream if it sent anything, and the state it leaves.
-- - Upstream.Budget: `_FastFailConcurrencyBudget` of src/opencode_a2a/opencode_upstream_client.py.
-- - ProtocolVersions: src/opencode_a2a/protocol_versions.py.
--
-- How the parts meet: the manager asks a repository who owns or claims a session; the stream marks
-- interrupts and collects what the coordinator needs at the end; the task store is told every state. The
-- handlers of session control and the coordinator go through the same manager, and the interrupt callbacks
-- through the same repository as the stream.
--
-- What is taken from outside. The A2A SDK is a parameter: the record `Sdk` has the type of tasks with
-- the parts that are read, `TaskStore` the operations of a store, `TaskTable` the rows of its table, and
-- `TaskManager` what the aggregator calls.
-- What a theorem relies on there is a hypothesis: `IsLawful` (a read tells what is held, a save changes
-- at most the saved task), `IsSdkStore` and `HasStates` (the store and the table agree), and `KeepsTask`
-- (a task manager has the task that it ensured or saved last). Clock readings
-- are arguments, in whole ticks, so the rounding of float times is not modelled. `json.dumps`,
-- `_coerce_number` and the addition of its results are arguments of the stream (`Setting`), as they
-- compute with floats. The outcome of the upstream's `create_session` is an input of its section, and the
-- answers of the upstream are inputs of the handlers and of the coordinator's steps, as is what other
-- requests do meanwhile. Which characters are digits is an argument of Rpc.Queries and ProtocolVersions.
-- `json.loads` is an argument of the database that stores details, and `str.lower` one of OutputModes,
-- where any character may occur; the results on metadata take it that a text that is stripped and lowered
-- stays as it is, which Base.Text.Lower proves of the `lower` that the other parts use.
--
-- Recursion is on the structure of lists and texts; the one fuel is that of the decimal digits in
-- Base.Text, where `n` has at most `n + 1` digits.
--
-- Not modelled: the HTTP routes, the JSON-RPC dispatch and the handlers that pass results of the
-- upstream on, the agent card and the OpenAPI document, configuration, authentication, the client
-- package, the HTTP requests to the upstream, `execute`, which reads the context of the SDK, tools, the
-- creation of schemas, logs and metrics. They are input and output, or calls of the SDK, or left for an
-- extension of the library.
pub mod Base
pub mod Cache
pub mod Tables
pub mod Sessions
pub mod Tasks
pub mod Interrupts
pub mod Stream
pub mod OutputModes
pub mod Rpc
pub mod Execution
pub mod Upstream
pub mod ProtocolVersions
