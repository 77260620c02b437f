-- ===== src/Worker/Queries.antt =====
-- temporalio_trio/worker/_single_thread_worker.py: `_apply_query`, `_apply_query_async` and
-- `_WorkflowInboundImpl.handle_query`.
use python_trio_sdk.Common.{true, none, some, String, concat, List, if◌then◌else◌, name_eq}
use python_trio_sdk.Common.Dict
use python_trio_sdk.Host.{Host, Exception, is_exception, Result, ok, err, value_error}
use python_trio_sdk.Activation.{QueryWorkflowJob, query_success, query_failure}
use python_trio_sdk.Runtime.State.{WorkflowRuntime, emit}
use python_trio_sdk.Worker.Code.{Call, returned, coroutine, failed, Caller}

abbrev pub no_query_handler : {Object : Type 0} → String → Exception Object
no_query_handler query = value_error (concat "No handler registered for query: " query)

-- The value of a call that is not awaited: a coroutine object is a value like every other.
abbrev pub not_awaited : {Object : Type 0} → Call Object → Result Object Object
not_awaited (returned v) = ok v
not_awaited (coroutine c) = ok c
not_awaited (failed e) = err e

module _ {h : Host} where
  -- What the `try` around the handler appends. A BaseException that is no Exception goes on.
  unfoldable pub respond :
      String
      → Result h.Object h.Object
      → WorkflowRuntime h
      → Result h.Object (Unit {0}) × WorkflowRuntime h
  respond query_id (ok result) rt = (ok tt, emit (query_success query_id result) rt)
  respond query_id (err e) rt =
      if is_exception e then (ok tt, emit (query_failure query_id e) rt) else (err e, rt)

  -- `runtime._read_only = True` around `run`
  unfoldable pub query_read_only :
      (run : WorkflowRuntime h → Result h.Object h.Object × WorkflowRuntime h)
      → QueryWorkflowJob h.Object
      → WorkflowRuntime h
      → Result h.Object (Unit {0}) × WorkflowRuntime h
  query_read_only run job rt =
      let ran = run (record rt { read_only = true }) in
      let answered = respond job.query_id ran.0 ran.1 in
      (answered.0, record answered.1 { read_only = rt.read_only })

  -- The handler is looked up first, and a missing one is answered.
  unfoldable pub query_found :
      (run : h.Object → WorkflowRuntime h → Result h.Object h.Object × WorkflowRuntime h)
      → QueryWorkflowJob h.Object
      → WorkflowRuntime h
      → Result h.Object (Unit {0}) × WorkflowRuntime h
  unfolding query_read_only
  query_found run job rt = elim (Dict.get rt.query_handlers (some job.query_type)) [
    | none ↦ (ok tt, emit (query_failure job.query_id (no_query_handler job.query_type)) rt)
    | some handler ↦ query_read_only (run handler) job rt
  ]

module _ {h : Host} (call : Caller h) where
  unfoldable pub apply_query :
      QueryWorkflowJob h.Object → WorkflowRuntime h → Result h.Object (Unit {0}) × WorkflowRuntime h
  unfolding query_found
  apply_query job rt =
      query_found
        (λ handler rt. (not_awaited (call handler job.args rt).0, (call handler job.args rt).1)) job
        rt

  -- the end of the interceptor chain
  unfoldable pub handle_query :
      (query : String)
      → List h.Object
      → WorkflowRuntime h
      → Result h.Object h.Object × WorkflowRuntime h
  handle_query query args rt = elim (Dict.get rt.query_handlers (some query)) [
    | none ↦ (err (no_query_handler query), rt)
    | some handler ↦ (not_awaited (call handler args rt).0, (call handler args rt).1)
  ]

  -- Without interceptors in between, which are the user's code.
  unfoldable pub apply_query_async :
      QueryWorkflowJob h.Object → WorkflowRuntime h → Result h.Object (Unit {0}) × WorkflowRuntime h
  unfolding query_found
  apply_query_async job rt = query_found (λ handler. handle_query job.query_type job.args) job rt
