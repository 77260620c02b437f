-- ===== src/Worker/State.antt =====
-- temporalio_trio/worker/_workflow_state.py: the mailbox between the dispatcher and a workflow task.
use python_trio_sdk.Common.{Bool, true, false, String, Option, none, some, List, [], if◌then◌else◌}
use python_trio_sdk.Host.{Host, Result, ok, err, runtime_error}
use python_trio_sdk.Activation.{WorkflowActivation, Command}
use python_trio_sdk.Runtime.State.{WorkflowRuntime}

pub record WorkflowState (h : Host) : Type 0 where
  pub run_id : String
  pub runtime : Option (WorkflowRuntime h)
  pub pending_activation : Option (WorkflowActivation h.Object)
  pub activation_event : h.Event
  pub commands_ready : h.Event
  pub is_complete : Bool
  pub completion_result : h.Object

-- `WorkflowState(run_id=run_id)`
unfoldable pub new_state : (h : Host) → String → WorkflowState h
new_state h run_id = record {
  run_id = run_id;
  runtime = none;
  pending_activation = none;
  activation_event = h.new_event;
  commands_ready = h.new_event;
  is_complete = false;
  completion_result = h.none_object;
}

module _ {h : Host} where
  unfoldable pub deliver_activation :
      WorkflowActivation h.Object → WorkflowState h → WorkflowState h
  deliver_activation activation state = record state {
    pending_activation = some activation;
    activation_event = h.set state.activation_event;
  }

  -- Behind the `await` of wait_for_activation.
  unfoldable pub take_activation :
      WorkflowState h → Result h.Object (WorkflowActivation h.Object) × WorkflowState h
  take_activation state =
      let state' = record state { activation_event = h.new_event } in
      elim state.pending_activation [
        | none ↦
            (err (runtime_error "Activation event was set but no activation available"), state')
        | some activation ↦ (ok activation, record state' { pending_activation = none })
      ]

  -- none: the call blocks, and the state is as it was.
  unfoldable pub wait_for_activation :
      WorkflowState h → Option (Result h.Object (WorkflowActivation h.Object)) × WorkflowState h
  unfolding take_activation
  wait_for_activation state =
      if h.is_set state.activation_event
      then (some (take_activation state).0, (take_activation state).1)
      else (none, state)

  unfoldable pub signal_commands_ready : WorkflowState h → WorkflowState h
  signal_commands_ready state = record state { commands_ready = h.set state.commands_ready }

  -- Behind the `await` of wait_for_commands.
  unfoldable pub take_commands :
      WorkflowState h → Result h.Object (List (Command h.Object)) × WorkflowState h
  take_commands state =
      let state' = record state { commands_ready = h.new_event } in
      elim state.runtime [
        | none ↦ (err (runtime_error "Runtime not set on WorkflowState"), state')
        | some rt ↦ (ok rt.commands, record state' { runtime = some (record rt { commands = [] }) })
      ]

  -- none: the call blocks, and the state is as it was.
  unfoldable pub wait_for_commands :
      WorkflowState h → Option (Result h.Object (List (Command h.Object))) × WorkflowState h
  unfolding take_commands
  wait_for_commands state =
      if h.is_set state.commands_ready
      then (some (take_commands state).0, (take_commands state).1)
      else (none, state)

  unfoldable pub mark_complete : WorkflowState h → WorkflowState h
  mark_complete state = record state { is_complete = true }
