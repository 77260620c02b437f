-- ===== src/Worker/Completed.antt =====
-- temporalio_trio/worker/_single_thread_worker.py: `_handle_activation_for_completed_workflow`.
use python_trio_sdk.Common.{none, some, String, List, [], ◌∷◌, ◌++◌, if◌then◌else◌, name_eq}
use python_trio_sdk.Common.Dict
use python_trio_sdk.Host.{Host, is_exception, Result, ok, err}
use python_trio_sdk.Activation.{
  WorkflowActivation, WorkflowJob, QueryWorkflowJob, query_workflow, Command, query_success,
  query_failure,
}
use python_trio_sdk.Runtime.State.{WorkflowRuntime}
use python_trio_sdk.Worker.State.{WorkflowState}
use python_trio_sdk.Worker.Code.{Caller}
use python_trio_sdk.Worker.Queries.{not_awaited, no_query_handler}

-- The command for a handler's value. A BaseException that is no Exception goes on.
unfoldable pub completed_answer :
    {Object : Type 0} → String → Result Object Object → Result Object (Command Object)
completed_answer query_id (ok result) = ok (query_success query_id result)
completed_answer query_id (err e) = if is_exception e then ok (query_failure query_id e) else err e

unfoldable pub add_answer :
    {Object : Type 0}
    → List (Command Object)
    → Result Object (Command Object)
    → Result Object (List (Command Object))
add_answer commands (ok c) = ok (commands ++ c ∷ [])
add_answer commands (err e) = err e

module _ {h : Host} (call : Caller h) where
  unfoldable pub query_completed :
      QueryWorkflowJob h.Object
      → WorkflowRuntime h
      → Result h.Object (Command h.Object) × WorkflowRuntime h
  unfolding completed_answer
  query_completed job rt = elim (Dict.get rt.query_handlers (some job.query_type)) [
    | none ↦ (ok (query_failure job.query_id (no_query_handler job.query_type)), rt)
    | some handler ↦ (
      completed_answer job.query_id (not_awaited (call handler job.args rt).0),
      (call handler job.args rt).1,
    )
  ]

  -- The loop over the jobs, with the commands so far.
  unfoldable pub query_jobs :
      List (Command h.Object)
      → List (WorkflowJob h.Object)
      → WorkflowRuntime h
      → Result h.Object (List (Command h.Object)) × WorkflowRuntime h
  unfolding query_completed add_answer
  query_jobs commands [] rt = (ok commands, rt)
  query_jobs commands (query_workflow job ∷ jobs) rt =
      let answered = query_completed job rt in
      elim (add_answer commands answered.0) [
        | ok commands' ↦ query_jobs commands' jobs answered.1
        | err e ↦ (err e, answered.1)
      ]
  query_jobs commands (_ ∷ jobs) rt = query_jobs commands jobs rt

  unfoldable pub handle_activation_for_completed_workflow :
      WorkflowState h
      → WorkflowActivation h.Object
      → Result h.Object (List (Command h.Object)) × WorkflowState h
  unfolding query_jobs
  handle_activation_for_completed_workflow state activation = elim state.runtime [
    | none ↦ (ok [], state)
    | some rt ↦ (
      (query_jobs [] activation.jobs rt).0,
      record state { runtime = some (query_jobs [] activation.jobs rt).1 },
    )
  ]
