-- ===== src/Worker/Frozen.antt =====
-- temporalio_trio/worker/_single_thread_worker.py: activations for a workflow that is complete.
use python_trio_sdk.Common.{
  ◌≡◌, refl, sym, subst, ◌∙◌, ap, true, false, some, String, List, [], ◌∷◌, inl, inr, Option-cases,
  Bool-cases, arith, is_some, string_eq, eq_iff, if◌then◌else◌,
}
use python_trio_sdk.Common.Dict
use python_trio_sdk.Common.Dict.{get-put}
use python_trio_sdk.Runtime.State.{WorkflowRuntime}
use python_trio_sdk.Host.{Host, Exception, Result, ok, err}
use python_trio_sdk.Activation.{WorkflowActivation, Command, complete_workflow}
use python_trio_sdk.Worker.State.{WorkflowState, deliver_activation}
use python_trio_sdk.Worker.Code.{Code, Settings}
use python_trio_sdk.Worker.Task.{started_job, resume_workflow, execute_workflow_main}
use python_trio_sdk.Worker.Completed.{handle_activation_for_completed_workflow}
use python_trio_sdk.Worker.Dispatch.{
  Worker, extract_run_id, dispatch_activation, dispatch_run, dispatch_cached, dispatch_known,
  finish, await_commands, send_completion,
}
use python_trio_sdk.Worker.Runs.{dispatch_activation-if}

module _ {h : Host} where
  -- The run is known, complete, and has the result.
  abbrev pub IsFrozen : String → h.Object → Worker h → Type 0
  IsFrozen run_id result worker =
      (state : WorkflowState h) × (Dict.get worker.workflow_states run_id ≡ some state)
      × (state.is_complete ≡ true)
      × (state.completion_result ≡ result)

  finish-IsFrozen :
      (run_id : String) (r : Result h.Object (List (Command h.Object))) (state : WorkflowState h)
      (worker : Worker h)
      → state.is_complete ≡ true
      → IsFrozen run_id state.completion_result (finish run_id (r, state) worker).1
  unfolding finish
  finish-IsFrozen run_id (ok cs) state worker c = (
    state,
    ground (arith, get-put worker.workflow_states run_id run_id state, eq_iff run_id run_id),
    c,
    refl,
  )
  finish-IsFrozen run_id (err e) state worker c = (
    state,
    ground (arith, get-put worker.workflow_states run_id run_id state, eq_iff run_id run_id),
    c,
    refl,
  )

module _ {h : Host} (code : Code h) (settings : Settings) where
  handled-IsFrozen :
      (run_id : String) (state : WorkflowState h) (activation : WorkflowActivation h.Object)
      (worker : Worker h)
      → state.is_complete ≡ true
      → IsFrozen run_id state.completion_result
          (finish run_id
            (handle_activation_for_completed_workflow code.call state activation)
            worker).1
  unfolding handle_activation_for_completed_workflow
  handled-IsFrozen run_id state activation worker c = elim (Option-cases state.runtime) [
    | inl q ↦
        rw (q, handle_activation_for_completed_workflow)
          (finish-IsFrozen run_id (ok []) state worker c)
    | inr (rt, q) ↦
        rw (q, handle_activation_for_completed_workflow) (finish-IsFrozen run_id _ _ worker c)
  ]

  dispatch_known-IsFrozen :
      (run_id : String) (state : WorkflowState h) (activation : WorkflowActivation h.Object)
      (worker : Worker h)
      → state.is_complete ≡ true
      → IsFrozen run_id state.completion_result
          (dispatch_known code settings run_id state activation worker).1
  unfolding dispatch_known
  dispatch_known-IsFrozen run_id state activation worker c =
      let delivered = deliver_activation activation state in
      subst
        (λ b.
          IsFrozen run_id state.completion_result
            (if b
              then finish run_id
                  (handle_activation_for_completed_workflow code.call state activation) worker
              else await_commands code run_id (resume_workflow code delivered) delivered worker).1)
        (sym c) (handled-IsFrozen run_id state activation worker c)

  dispatch_cached-IsFrozen :
      (run_id : String) (state : WorkflowState h) (activation : WorkflowActivation h.Object)
      (worker : Worker h)
      → Dict.get worker.workflow_states run_id ≡ some state
      → state.is_complete ≡ true
      → IsFrozen run_id state.completion_result
          (dispatch_cached code settings run_id state activation worker).1
  unfolding dispatch_cached dispatch_known send_completion
  dispatch_cached-IsFrozen run_id state activation worker p c =
      elim (Bool-cases (is_some (started_job activation.jobs))) [
        | inl q ↦
            rw (q, dispatch_cached)
              (subst
                (λ b.
                  IsFrozen run_id state.completion_result
                    (if b
                      then (
                        ok tt,
                        send_completion run_id (complete_workflow state.completion_result ∷ [])
                            worker,
                      )
                      else dispatch_known code settings run_id state activation worker).1)
                (sym c) (state, p, c, refl))
        | inr q ↦ rw (q, dispatch_cached) (dispatch_known-IsFrozen run_id state activation worker c)
      ]

  -- A complete run stays in the worker, complete and with its result, through every activation for it
  -- that is no eviction.
  pub complete_run_is_kept :
      (fallback run_id : String)
      → (activation : WorkflowActivation h.Object) → (state : WorkflowState h) → (worker : Worker h)
      → extract_run_id fallback activation ≡ ok run_id
      → activation.remove_from_cache ≡ false
      → Dict.get worker.workflow_states run_id ≡ some state
      → state.is_complete ≡ true
      → IsFrozen run_id state.completion_result
          (dispatch_activation code settings fallback activation worker).1
  unfolding dispatch_run
  complete_run_is_kept fallback run_id activation state worker p q r c =
      rw
        (
          dispatch_activation-if code settings fallback run_id activation worker false p q,
          r,
          dispatch_run,
        )
        (dispatch_cached-IsFrozen run_id state activation worker r c)

  -- A run whose method has failed, with whatever exception, counts as complete and has no result: an
  -- activation that starts it again while it is in the cache is answered as if it had completed with
  -- None, and changes no state.
  pub failed_run_is_replayed_as_completed :
      (fallback run_id : String)
      → (activation : WorkflowActivation h.Object) → (before : WorkflowState h)
      → (rt : WorkflowRuntime h) → (e : Exception h.Object) → (worker : Worker h)
      → extract_run_id fallback activation ≡ ok run_id
      → activation.remove_from_cache ≡ false
      → is_some (started_job activation.jobs) ≡ true
      → before.completion_result ≡ h.none_object
      → Dict.get worker.workflow_states run_id
        ≡ some (execute_workflow_main code (err e) before rt).0
      → dispatch_activation code settings fallback activation worker
        ≡ (ok tt, send_completion run_id (complete_workflow h.none_object ∷ []) worker)
  unfolding execute_workflow_main dispatch_run dispatch_cached
  failed_run_is_replayed_as_completed fallback run_id activation before rt e worker p q s n r =
      dispatch_activation-if code settings fallback run_id activation worker false p q
      ∙ rw (r, dispatch_run)
          (rw (s, dispatch_cached)
            (ap (λ v. (ok tt, send_completion run_id (complete_workflow v ∷ []) worker)) n))
