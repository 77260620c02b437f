-- ===== src/Worker/Dispatch.antt =====
-- temporalio_trio/worker/_single_thread_worker.py: `_dispatch_activation`, with the workflow task of
-- the activation run in the place where the dispatcher waits for its commands.
use python_trio_sdk.Common.{
  Option, none, some, String, List, [], ◌∷◌, ◌++◌, if◌then◌else◌, string_eq, ◌==◌, is_some, ◌&&◌,
}
use python_trio_sdk.Common.Dict
use python_trio_sdk.Common.Dict.{Dict}
use python_trio_sdk.Host.{Host, Exception, Result, ok, err, runtime_error, cancelled}
use python_trio_sdk.Activation.{WorkflowActivation, Command, complete_workflow}
use python_trio_sdk.Worker.State.{WorkflowState, new_state, deliver_activation, take_commands}
use python_trio_sdk.Worker.Code.{Code, Settings}
use python_trio_sdk.Worker.Task.{started_job, run_workflow, resume_workflow, execute_workflow_main}
use python_trio_sdk.Worker.Completed.{handle_activation_for_completed_workflow}

-- What is sent to the bridge for an activation; without commands for a successful empty one.
pub record Completion (Object : Type 0) : Type 0 where
  pub run_id : String
  pub commands : List (Command Object)

pub record Worker (h : Host) : Type 0 where
  pub workflow_states : Dict String (WorkflowState h)
  pub completions : List (Completion h.Object)
  -- what has ended the root nursery
  pub crashed : Option (Exception h.Object)

-- `fallback` is the text that the source makes of the activation's address in memory.
unfoldable pub extract_run_id :
    {Object : Type 0} → (fallback : String) → WorkflowActivation Object → Result Object String
unfolding started_job
extract_run_id fallback activation =
    if activation.run_id == ""
    then elim (started_job activation.jobs) [
      | none ↦ err (runtime_error "Cannot determine run_id from activation")
      | some _ ↦ ok fallback
    ]
    else ok activation.run_id

module _ {h : Host} where
  unfoldable pub send_completion : String → List (Command h.Object) → Worker h → Worker h
  send_completion run_id commands worker = record worker {
    completions = worker.completions ++ record { run_id = run_id; commands = commands } ∷ [];
  }

  -- An eviction removes the state, if there is one.
  unfoldable pub evict : String → Worker h → Worker h
  unfolding send_completion
  evict run_id worker =
      send_completion run_id []
        (record worker { workflow_states = Dict.remove worker.workflow_states run_id })

  unfoldable pub put_state : String → WorkflowState h → Worker h → Worker h
  put_state run_id state worker = record worker {
    workflow_states = Dict.put worker.workflow_states run_id state;
  }

  -- What the branches end with: the commands, and the state that they were taken from.
  unfoldable pub finish :
      String
      → Result h.Object (List (Command h.Object)) × WorkflowState h
      → Worker h
      → Result h.Object (Unit {0}) × Worker h
  unfolding send_completion put_state
  finish run_id (ok commands, state) worker =
      (ok tt, send_completion run_id commands (put_state run_id state worker))
  finish run_id (err e, state) worker = (err e, put_state run_id state worker)

module _ {h : Host} (code : Code h) where
  -- The task of a run whose scope is cancelled from outside: trio.Cancelled goes on behind its nursery.
  unfoldable pub cancel_run : WorkflowState h → WorkflowState h
  unfolding execute_workflow_main
  cancel_run state = elim state.runtime [
    | none ↦ state
    | some rt ↦
        let ran = code.cancel_tasks rt in
        elim ran.0 [
          | none ↦ record state { runtime = some ran.1 }
          | some result ↦
              let ended = execute_workflow_main code result state ran.1 in
              record ended.0 { runtime = some ended.1 }
        ]
  ]

  unfoldable pub cancel_runs : Dict String (WorkflowState h) → Dict String (WorkflowState h)
  unfolding cancel_run
  cancel_runs [] = []
  cancel_runs ((run_id, state) ∷ states) = (run_id, cancel_run state) ∷ cancel_runs states

  -- An exception of `_run_workflow` leaves the root nursery, which cancels all other tasks.
  unfoldable pub crash : String → Exception h.Object → WorkflowState h → Worker h → Worker h
  unfolding cancel_runs put_state
  crash run_id e state worker =
      put_state run_id state
        (record worker { workflow_states = cancel_runs worker.workflow_states; crashed = some e })

  -- `await state.wait_for_commands()`, the task having run, and the completion. In a worker that
  -- crashes the wait raises trio.Cancelled.
  unfoldable pub await_commands :
      String
      → Result h.Object (WorkflowState h)
      → WorkflowState h
      → Worker h
      → Result h.Object (Unit {0}) × Worker h
  unfolding take_commands finish crash
  await_commands run_id (ok state') state worker = finish run_id (take_commands state') worker
  await_commands run_id (err e) state worker = (err cancelled, crash run_id e state worker)

module _ {h : Host} (code : Code h) (settings : Settings) where
  unfoldable pub dispatch_new :
      String → WorkflowActivation h.Object → Worker h → Result h.Object (Unit {0}) × Worker h
  unfolding new_state run_workflow await_commands
  dispatch_new run_id activation worker =
      let state = new_state h run_id in
      await_commands code run_id (run_workflow code settings activation state) state worker

  unfoldable pub dispatch_known :
      String
      → WorkflowState h
      → WorkflowActivation h.Object
      → Worker h
      → Result h.Object (Unit {0}) × Worker h
  unfolding handle_activation_for_completed_workflow deliver_activation resume_workflow
      await_commands finish
  dispatch_known run_id state activation worker =
      if state.is_complete
      then finish run_id (handle_activation_for_completed_workflow code.call state activation)
          worker
      else let delivered = deliver_activation activation state in
        await_commands code run_id (resume_workflow code delivered) delivered worker

  -- Behind the check for an eviction, for a known run.
  unfoldable pub dispatch_cached :
      String
      → WorkflowState h
      → WorkflowActivation h.Object
      → Worker h
      → Result h.Object (Unit {0}) × Worker h
  unfolding dispatch_known send_completion started_job
  dispatch_cached run_id state activation worker =
      if is_some (started_job activation.jobs) && state.is_complete
      then (ok tt, send_completion run_id (complete_workflow state.completion_result ∷ []) worker)
      else dispatch_known run_id state activation worker

  -- Behind the check for an eviction.
  unfoldable pub dispatch_run :
      String → WorkflowActivation h.Object → Worker h → Result h.Object (Unit {0}) × Worker h
  unfolding dispatch_new dispatch_cached send_completion started_job
  dispatch_run run_id activation worker = elim (Dict.get worker.workflow_states run_id) [
    | none ↦
        if is_some (started_job activation.jobs)
        then dispatch_new run_id activation worker
        else (ok tt, send_completion run_id [] worker)
    | some state ↦ dispatch_cached run_id state activation worker
  ]

  unfoldable pub dispatch_activation :
      (fallback : String)
      → WorkflowActivation h.Object
      → Worker h
      → Result h.Object (Unit {0}) × Worker h
  unfolding extract_run_id evict dispatch_run
  dispatch_activation fallback activation worker = elim (extract_run_id fallback activation) [
    | err e ↦ (err e, worker)
    | ok run_id ↦
        if activation.remove_from_cache
        then (ok tt, evict run_id worker)
        else dispatch_run run_id activation worker
  ]
