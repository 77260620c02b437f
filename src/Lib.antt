-- ===== src/Lib.antt =====
-- The workflow worker of the Trio SDK for Temporal (Python, temporalio_trio/worker), with the
-- wrapper of the native bridge that it stands on, the worker of activities, and the replayer. A
-- worker polls the bridge for activations of sdk-core, converts them from protobuf, each with jobs
-- for one workflow run, hands them to the task of that run, lets the workflow code go on until it
-- waits, collects the commands that it emitted, converts them, and sends them back as one
-- completion. Workflow code calls the runtime of its run; a call that has to wait puts an event
-- into a table under a fresh number, and the job that carries the number sets the event.
--
-- The files and what they model. Common: Boolean tests, dictionaries. Host: Python objects,
-- trio.Event and the converters of the temporalio package, as parameters with the laws of an event.
-- Activation (Jobs, Commands): temporalio_trio/worker/_activation.py. Runtime: WorkflowRuntime of
-- temporalio_trio/worker/_runtime.py, with State (its fields), New (its creation in _run_workflow),
-- Timers, Activities (Requests, Execute, Schedule, Waiting, Resolve), Children (Requests, Start,
-- Result), External (signals and cancel requests to other workflows), Patches, Conditions
-- (wait_condition and cancellation), Handlers (the handler tables). Worker/State:
-- temporalio_trio/worker/_workflow_state.py. Worker:
-- temporalio_trio/worker/_single_thread_worker.py, with Queries, Updates and Signals
-- (_apply_query_async, _apply_update_async, _apply_signal), Apply (_apply_activation), Register
-- (_register_handlers), Task (_run_workflow, _execute_workflow_main, _wait_and_signal), Completed
-- (_handle_activation_for_completed_workflow), Dispatch (_dispatch_activation). Poll (the poll
-- loop, _parse_activation, _send_completion). Clock: temporalio_trio/worker/_clock.py. Bridge:
-- temporalio_trio/worker/_bridge_types.py, with Converters (the parameter for what it calls),
-- Messages and Commands/Messages (protobuf messages by their fields), Durations, Activations (Start
-- and Resolutions), Commands (Fields and Convert). AsyncBridge: TrioBridgeWrapper of
-- temporalio_trio/_async_bridge.py, with State (fields and checks, send_request of
-- temporalio_trio_bridge/src/bridge.rs), Exchange (a request, its callback and the wait), Prefix
-- (the worker id before the data, and its reading in bridge.rs), Json, Worker, Client, Replay,
-- Shutdown (the operations), Calls (sequences of them). ActivityWorker: TrioActivityWorker of
-- temporalio_trio/worker/_activity.py, with State (its fields, cancellation), Run (the start and
-- the completion of an activity, which end where its code begins and begin where it ends), Lifespan
-- (all that happens to the worker, as a sequence), Heartbeats (_process_heartbeats and
-- _send_heartbeat). Replayer: temporalio_trio/worker/_replayer.py, the histories one after the
-- other. The proofs stand in Bridge/JobOrder, Bridge/CommandOrder, AsyncBridge/Routing, Effects,
-- Draining, Phases, Shutdowns, Runtime/Wakes, Runtime/Moves, Runtime/Sound, Runtime/Wakeups,
-- Runtime/Replay, Runtime/Backoffs, Runtime/PatchAnswers, Runtime/Refusals, ActivityWorker/Outcome,
-- ActivityWorker/Throttling, Replayer/Verdicts and Worker/Mailbox, QueryAnswers, UpdateProtocol,
-- Ready, Arrivals, Runs, Frozen, Faults, Registered, Sound, Polling, Dropped; Tests holds a small
-- host and examples.
--
-- How an async function is modelled. It is cut at its await: `workflow_sleep` is the part before it
-- and gives what the coroutine waits for, `resume_sleep` the part behind it, given how trio resumes
-- it (the event was set, or the scope was cancelled). A state is passed through explicitly; what a
-- call raises is a value of Result, and the state that it leaves is kept. Runtime/Moves lets all
-- these parts follow each other in any order. In Worker/Dispatch the task of a run is executed in
-- the place where the dispatcher waits for its commands. The code of a workflow is the parameter
-- `Code` of Worker/Code: what a handler call gives, what the tasks do until all are blocked, and
-- what they do when the nursery is cancelled. An exception that leaves the task of a run ends the
-- worker: the dispatcher, which waits for commands, gets trio.Cancelled, as do the tasks of all
-- other runs (crash). What the Rust bridge does with a request is the argument `Answer` of a call
-- of its wrapper: it refuses it, its callback comes in time, or it does not. What the poll returns
-- in each round is the argument of the poll loop.
--
-- Numbers. Sequence numbers, times and durations are natural numbers: times in nanoseconds, a
-- timedelta in milliseconds; Python integers do not overflow; the length of a worker id has four
-- bytes. Where the code computes in floating point, the operations on floating point numbers are a
-- parameter, or the argument of the model is what the code computes: the duration of a sleep in
-- whole milliseconds, which is not negative, and the timeout of wait_condition by its sign and its
-- whole nanoseconds. Only the loop of workflow_wait_activity has fuel, one unit for each round. Two
-- are enough: a retry takes a fresh number, for which no outcome is recorded, so that the second
-- round waits.
--
-- Not modelled: workflow code whose tasks, once they are cancelled, wait again for the workflow in
-- a shielded scope: what cancelled tasks do is a function that gives their end; interceptors of the
-- user between the worker and the terminal interceptors; context variables; logging; the text of
-- messages where it shows only the representation of an enum; the nursery and the shutdown of the
-- worker; the native bridge (temporalio_trio_bridge) apart from the two functions named above; of
-- the activity worker the interval of the throttling, the poll loop and the description of the
-- activity for its code; the bridge and the worker that the replayer starts and ends; the client
-- and the testing support.
pub mod Common
pub mod Host
pub mod Activation
pub mod Runtime
pub mod Worker
pub mod Bridge
pub mod AsyncBridge
pub mod ActivityWorker
pub mod Clock
pub mod Tests
pub mod Replayer
