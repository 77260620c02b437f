-- ===== src/Worker/Updates.antt =====
-- temporalio_trio/worker/_single_thread_worker.py: `_apply_update_async`,
-- `_run_update_handler_wrapper` and `_WorkflowInboundImpl.handle_update_validator`.
use python_trio_sdk.Common.{
  true, false, Option, none, some, String, concat, List, [], ◌∷◌, ◌++◌, if◌then◌else◌, name_eq,
  string_eq,
}
use python_trio_sdk.Common.Dict
use python_trio_sdk.Common.Dict.{Dict}
use python_trio_sdk.Host.{Host, Exception, is_exception, Result, ok, err, runtime_error}
use python_trio_sdk.Activation.{UpdateWorkflowJob, UpdateResponseCommand, update_response}
use python_trio_sdk.Runtime.State.{WorkflowRuntime, Nursery, Task, update_handler, emit}
use python_trio_sdk.Runtime.Conditions.{notify_condition_waiters}
use python_trio_sdk.Worker.Code.{Call, returned, coroutine, failed, Caller}

-- The three kinds of `UpdateResponseCommand` that the worker builds.
module _ {Object : Type 0} (job : UpdateWorkflowJob Object) where
  abbrev pub accept : UpdateResponseCommand Object
  accept = record {
    protocol_instance_id = job.protocol_instance_id;
    accepted = true;
    rejected_failure = none;
    completed_result = none;
    is_completed = false;
  }

  abbrev pub reject : Exception Object → UpdateResponseCommand Object
  reject e = record {
    protocol_instance_id = job.protocol_instance_id;
    accepted = false;
    rejected_failure = some e;
    completed_result = none;
    is_completed = false;
  }

  -- `completed_result` is none where Python's value is None.
  abbrev pub complete : Option Object → UpdateResponseCommand Object
  complete result = record {
    protocol_instance_id = job.protocol_instance_id;
    accepted = false;
    rejected_failure = none;
    completed_result = result;
    is_completed = true;
  }

-- `runtime.update_handlers.get(name)`, then the dynamic one under None
unfoldable pub lookup : {A : Type 0} → Dict (Option String) A → String → Option A
lookup handlers name = elim (Dict.get handlers (some name)) [
  | none ↦ Dict.get handlers none
  | some f ↦ some f
]

abbrev pub no_update_handler : {Object : Type 0} → String → Exception Object
no_update_handler name = runtime_error (
    concat "Update handler for '"
      (concat name "' expected but not found, and there is no dynamic handler."))

module _ {h : Host} where
  -- self.commands.append(UpdateResponseCommand(...))
  abbrev pub answer : UpdateResponseCommand h.Object → WorkflowRuntime h → WorkflowRuntime h
  answer response rt = emit (update_response response) rt

  -- in_progress_updates.pop(id, None) and notify_condition_waiters
  unfoldable pub finish_update : UpdateWorkflowJob h.Object → WorkflowRuntime h → WorkflowRuntime h
  unfolding notify_condition_waiters
  finish_update job rt =
      notify_condition_waiters
        (record rt { in_progress_updates = Dict.remove rt.in_progress_updates job.id })

  -- nursery.start_soon
  unfoldable pub start_soon :
      Task h.Object → Nursery h.Object → WorkflowRuntime h → WorkflowRuntime h
  start_soon task nursery rt = record rt {
    nursery = some (record nursery { tasks = nursery.tasks ++ task ∷ [] });
  }

  -- What becomes of the handler's value or exception.
  unfoldable pub after_handler :
      UpdateWorkflowJob h.Object
      → Call h.Object
      → WorkflowRuntime h
      → Result h.Object (Unit {0}) × WorkflowRuntime h
  unfolding finish_update start_soon notify_condition_waiters
  after_handler job (returned v) rt = (ok tt, finish_update job (answer (complete job (some v)) rt))
  after_handler job (failed e) rt =
      if is_exception e then (ok tt, finish_update job (answer (reject job e) rt)) else (err e, rt)
  after_handler job (coroutine c) rt = elim rt.nursery [
    | none ↦ (ok tt, finish_update job (answer (complete job none) rt))
    | some nursery ↦
        (ok tt, notify_condition_waiters (start_soon (update_handler c job) nursery rt))
  ]

  -- The end of a spawned handler; trio.Cancelled is no Exception, and only cleans up.
  unfoldable pub run_update_handler_wrapper :
      UpdateWorkflowJob h.Object
      → Result h.Object h.Object
      → WorkflowRuntime h
      → Result h.Object (Unit {0}) × WorkflowRuntime h
  unfolding finish_update
  run_update_handler_wrapper job (ok v) rt =
      (ok tt, finish_update job (answer (complete job (some v)) rt))
  run_update_handler_wrapper job (err e) rt =
      if is_exception e
      then (ok tt, finish_update job (answer (reject job e) rt))
      else (err e, finish_update job rt)

-- the exception of a call whose value is dropped
abbrev pub failure : {Object : Type 0} → Call Object → Option (Exception Object)
failure (failed e) = some e
failure _ = none

module _ {h : Host} (call : Caller h) where
  -- the end of the interceptor chain; its value is dropped
  unfoldable pub handle_update_validator :
      (update : String)
      → List h.Object
      → WorkflowRuntime h
      → Option (Exception h.Object) × WorkflowRuntime h
  unfolding lookup
  handle_update_validator update args rt = elim (lookup rt.update_validators update) [
    | none ↦ (none, rt)
    | some validator ↦ (failure (call validator args rt).0, (call validator args rt).1)
  ]

  -- `run_validator` with the validator's exception, if there is one
  unfoldable pub validate :
      UpdateWorkflowJob h.Object
      → WorkflowRuntime h
      → Option (Exception h.Object) × WorkflowRuntime h
  unfolding handle_update_validator
  validate job rt =
      if job.run_validator then handle_update_validator job.name job.args rt else (none, rt)

  -- Accept, track, and run the handler.
  unfoldable pub accept_update :
      h.Object
      → UpdateWorkflowJob h.Object
      → WorkflowRuntime h
      → Result h.Object (Unit {0}) × WorkflowRuntime h
  unfolding after_handler
  accept_update handler job rt =
      let tracked = record (answer (accept job) rt) {
        in_progress_updates = Dict.put rt.in_progress_updates job.id job.name;
      } in
      let ran = call handler job.args tracked in after_handler job ran.0 ran.1

  unfoldable pub validated :
      h.Object
      → UpdateWorkflowJob h.Object
      → Option (Exception h.Object)
      → WorkflowRuntime h
      → Result h.Object (Unit {0}) × WorkflowRuntime h
  unfolding accept_update
  validated handler job none rt = accept_update handler job rt
  validated handler job (some e) rt =
      if is_exception e then (ok tt, answer (reject job e) rt) else (err e, rt)

  -- The handler is the one found before the validator runs.
  unfoldable pub apply_update_async :
      UpdateWorkflowJob h.Object
      → WorkflowRuntime h
      → Result h.Object (Unit {0}) × WorkflowRuntime h
  unfolding lookup validate validated
  apply_update_async job rt = elim (lookup rt.update_handlers job.name) [
    | none ↦ (ok tt, answer (reject job (no_update_handler job.name)) rt)
    | some handler ↦ validated handler job (validate job rt).0 (validate job rt).1
  ]
