-- ===== src/Worker/Mailbox.antt =====
-- temporalio_trio/worker/_workflow_state.py: deliveries and waits in sequence.
use python_trio_sdk.Common.{◌≡◌, refl, none, some, [], ◌∷◌}
use python_trio_sdk.Host.{Host, ok}
use python_trio_sdk.Activation.{WorkflowActivation, Command}
use python_trio_sdk.Runtime.State.{WorkflowRuntime, emit}
use python_trio_sdk.Worker.State.{
  WorkflowState, deliver_activation, wait_for_activation, signal_commands_ready, wait_for_commands,
}

module _ {h : Host} where
  -- Whatever the mailbox held before, the task that waits gets the activation that was delivered last,
  -- and a second wait blocks and changes nothing.
  activation_taken_once :
      (activation : WorkflowActivation h.Object) (state : WorkflowState h)
      → let first = wait_for_activation (deliver_activation activation state) in
        (first.0 ≡ some (ok activation)) × (wait_for_activation first.1 ≡ (none, first.1))
  unfolding deliver_activation wait_for_activation
  activation_taken_once activation state = (
    rw (h.is_set-set state.activation_event) refl,
    rw (h.is_set-set state.activation_event, h.is_set-new) refl,
  )

  -- Once the task has signalled, the dispatcher gets all commands of the runtime in their order and a
  -- second wait blocks; after a further command and signal it gets that command alone.
  commands_taken_once :
      (state : WorkflowState h) (rt : WorkflowRuntime h) (c : Command h.Object)
      → state.runtime ≡ some rt
      → let first = wait_for_commands (signal_commands_ready state) in
        let later = record first.1 { runtime = some (emit c (record rt { commands = [] })) } in
        (first.0 ≡ some (ok rt.commands))
        × (wait_for_commands first.1 ≡ (none, first.1))
        × ((wait_for_commands (signal_commands_ready later)).0 ≡ some (ok (c ∷ [])))
  unfolding signal_commands_ready wait_for_commands
  commands_taken_once state rt c p = (
    rw (h.is_set-set state.commands_ready, p) refl,
    rw (h.is_set-set state.commands_ready, p, h.is_set-new) refl,
    rw (h.is_set-set state.commands_ready, p, h.is_set-set h.new_event) refl,
  )
