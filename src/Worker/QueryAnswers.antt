-- ===== src/Worker/QueryAnswers.antt =====
-- temporalio_trio/worker/_single_thread_worker.py: what a query leaves behind.
use python_trio_sdk.Common.{
  ◌≡◌, refl, true, some, String, List, [], ◌∷◌, ◌++◌, name_eq, inl, inr, Option-cases, Bool-cases,
  arith,
}
use python_trio_sdk.Common.Dict
use python_trio_sdk.Host.{Host, is_exception, Result, ok, err}
use python_trio_sdk.Activation.{QueryWorkflowJob, Command}
use python_trio_sdk.Runtime.State.{WorkflowRuntime}
use python_trio_sdk.Worker.Code.{Caller}
use python_trio_sdk.Worker.Queries.{
  apply_query, apply_query_async, handle_query, query_found, query_read_only, respond, not_awaited,
}
use python_trio_sdk.Worker.Completed.{query_completed, completed_answer}

module _ {h : Host} (call : Caller h) where
  handle_query-found :
      (query : String) (args : List h.Object) (f : h.Object) (rt : WorkflowRuntime h)
      → Dict.get rt.query_handlers (some query) ≡ some f
      → handle_query call query args rt ≡ (not_awaited (call f args rt).0, (call f args rt).1)
  unfolding handle_query
  handle_query-found query args f rt e = rw (e, handle_query) refl

  -- Through the interceptor chain, when no interceptor is installed, a query has the result and the
  -- effect that it has when its handler is called directly.
  async_is_direct :
      (job : QueryWorkflowJob h.Object) (rt : WorkflowRuntime h)
      → apply_query_async call job rt ≡ apply_query call job rt
  unfolding apply_query_async apply_query query_found handle_query query_read_only
  async_is_direct job rt = elim (Option-cases (Dict.get rt.query_handlers (some job.query_type))) [
    | inl e ↦ rw (e, apply_query_async, apply_query, query_found) refl
    | inr (f, e) ↦
        rw (e, apply_query_async, apply_query, query_found, query_read_only)
          (rw (handle_query-found job.query_type job.args f (record rt { read_only = true }) e)
            refl)
  ]

  -- Whatever the handler does, and also where its exception is not answered, the query leaves the
  -- read-only mark of the runtime as it was.
  pub query_restores_read_only :
      (job : QueryWorkflowJob h.Object) (rt : WorkflowRuntime h)
      → (apply_query_async call job rt).1.read_only ≡ rt.read_only
  unfolding apply_query_async query_found query_read_only
  query_restores_read_only job rt =
      elim (Option-cases (Dict.get rt.query_handlers (some job.query_type))) [
        | inl e ↦ ground (arith, e)
        | inr (f, e) ↦ ground (arith, e)
      ]

  respond-completed_answer :
      (id : String) (r : Result h.Object h.Object) (rt : WorkflowRuntime h) (c : Command h.Object)
      → completed_answer id r ≡ ok c
      → ((respond id r rt).0 ≡ ok tt) × ((respond id r rt).1.commands ≡ rt.commands ++ c ∷ [])
  unfolding completed_answer respond
  respond-completed_answer id (ok v) rt c p = ground (arith, p)
  respond-completed_answer id (err e) rt c p = elim (Bool-cases (is_exception e)) [
    | inl q ↦ ground (arith, p, q)
    | inr q ↦ ground (arith, p, q)
  ]

  -- A handler that runs under the read-only mark as it does without and emits no commands: the query
  -- of a running workflow appends the one command that the same query gets of a completed workflow.
  pub query_answered_once :
      (job : QueryWorkflowJob h.Object) (rt : WorkflowRuntime h) (c : Command h.Object)
      → ((f : h.Object)
          → (call f job.args (record rt { read_only = true })).0 ≡ (call f job.args rt).0)
      → ((f : h.Object)
          → (call f job.args (record rt { read_only = true })).1.commands ≡ rt.commands)
      → (query_completed call job rt).0 ≡ ok c
      → ((apply_query_async call job rt).0 ≡ ok tt)
        × ((apply_query_async call job rt).1.commands ≡ rt.commands ++ c ∷ [])
  unfolding apply_query_async query_completed query_found query_read_only handle_query
  query_answered_once job rt c same quiet p =
      elim (Option-cases (Dict.get rt.query_handlers (some job.query_type))) [
        | inl e ↦ ground (arith, e, p)
        | inr (f, e) ↦
            let go =
              respond-completed_answer job.query_id
                (not_awaited (call f job.args (record rt { read_only = true })).0)
                (call f job.args (record rt { read_only = true })).1 c in
            ground (arith, e, p, same f, quiet f, go)
      ]
