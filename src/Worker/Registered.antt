-- ===== src/Worker/Registered.antt =====
-- temporalio_trio/worker/_runtime.py and _single_thread_worker.py: handlers that workflow code
-- registers, and the jobs that arrive for them.
use python_trio_sdk.Common.{
  ◌≡◌, refl, ap, ◌∙◌, true, Option, none, some, String, [], arith, name_eq, option_eq_iff, ◌++◌,
  ◌∷◌,
}
use python_trio_sdk.Common.Dict
use python_trio_sdk.Common.Dict.{get-put, get-remove}
use python_trio_sdk.Host.{Host, Exception, ok, is_exception}
use python_trio_sdk.Activation.{UpdateWorkflowJob, SignalWorkflowJob, update_response}
use python_trio_sdk.Runtime.State.{WorkflowRuntime, signal_handler, Nursery, emit}
use python_trio_sdk.Runtime.Handlers.{workflow_set_update_handler, workflow_all_handlers_finished}
use python_trio_sdk.Worker.Code.{coroutine, failed, Caller}
use python_trio_sdk.Worker.Updates.{
  apply_update_async, validate, validated, lookup, handle_update_validator, reject, failure,
}
use python_trio_sdk.Worker.UpdateProtocol.{apply_update_async-found}
use python_trio_sdk.Worker.Signals.{apply_signal}

lookup-put :
    {A : Type 0}
    → (d : Dict.Dict (Option String) A) (name : String) (x : A)
    → lookup (Dict.put d (some name) x) name ≡ some x
unfolding lookup
lookup-put d name x =
    let found : Dict.get (Dict.put d (some name) x) (some name) ≡ some x =
      ground (arith, get-put d (some name) (some name) x, option_eq_iff (some name) (some name)) in
    rw (found, lookup) refl

module _ {h : Host} (call : Caller h) where
  validate-fails :
      (job : UpdateWorkflowJob h.Object) (validator : h.Object) (e : Exception h.Object)
      (rt : WorkflowRuntime h)
      → job.run_validator ≡ true
      → lookup rt.update_validators job.name ≡ some validator
      → (call validator job.args rt).0 ≡ failed e
      → validate call job rt ≡ (some e, (call validator job.args rt).1)
  unfolding validate handle_update_validator
  validate-fails job validator e rt v l p =
      rw (v, l, validate, handle_update_validator)
        (ap (λ c. (failure c, (call validator job.args rt).1)) p)

  -- The runtime after the two registrations.
  abbrev pub replace :
      String → (old new validator : h.Object) → WorkflowRuntime h → WorkflowRuntime h
  replace name old new validator rt =
      workflow_set_update_handler (some name) (some new) none
        (workflow_set_update_handler (some name) (some old) (some validator) rt)

  -- An update handler that is replaced by one without a validator is still guarded by the validator
  -- of the one before: where that raises, an update that is to be validated is rejected, and the new
  -- handler does not run.
  pub replaced_handler_keeps_validator :
      (job : UpdateWorkflowJob h.Object) (old new validator : h.Object) (e : Exception h.Object)
      → (rt : WorkflowRuntime h) → job.run_validator ≡ true
      → (call validator job.args (replace job.name old new validator rt)).0 ≡ failed e
      → is_exception e ≡ true
      → apply_update_async call job (replace job.name old new validator rt) ≡ (
        ok tt,
        emit
            (update_response (reject job e))
            (call validator job.args (replace job.name old new validator rt)).1,
      )
  unfolding workflow_set_update_handler apply_update_async
  replaced_handler_keeps_validator job old new validator e rt v p x =
      let first = workflow_set_update_handler (some job.name) (some old) (some validator) rt in
      let replaced = workflow_set_update_handler (some job.name) (some new) none first in
      let fails =
        validate-fails job validator e replaced v
          (lookup-put rt.update_validators job.name validator) p in
      apply_update_async-found call new job replaced (lookup-put first.update_handlers job.name new)
      ∙ ap (λ r. validated call new job r.0 r.1) fails
      ∙ rw (x, validated) refl

  -- A signal whose handler is a coroutine function, once its coroutine is a task of the nursery, does
  -- not count as unfinished: `workflow_all_handlers_finished` answers what it answered before.
  pub running_signal_counts_as_finished :
      (job : SignalWorkflowJob h.Object) (handler c : h.Object) (nursery : Nursery h.Object)
      (rt : WorkflowRuntime h)
      → Dict.get rt.signal_handlers (some job.signal_name) ≡ some handler
      → call handler job.args rt ≡ (coroutine c, rt)
      → rt.nursery ≡ some nursery
      → ((apply_signal call job rt).1.nursery
          ≡ some
              (record nursery { tasks = nursery.tasks ++ signal_handler c job.signal_name ∷ [] }))
        × (workflow_all_handlers_finished (apply_signal call job rt).1
            ≡ workflow_all_handlers_finished rt)
  unfolding apply_signal workflow_all_handlers_finished
  running_signal_counts_as_finished job handler c nursery rt p q r = ground (arith, p, q, r)
