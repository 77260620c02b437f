-- ===== src/Worker/Arrivals.antt =====
-- temporalio_trio/worker/_single_thread_worker.py: the dispatcher's wait for the commands
-- of a run.
use python_trio_sdk.Common.{
  ◌≡◌, refl, subst, true, some, List, inl, inr, Option-cases, arith, is_some,
}
use python_trio_sdk.Host.{Host, ok}
use python_trio_sdk.Activation.{WorkflowActivation, Command}
use python_trio_sdk.Worker.State.{WorkflowState, wait_for_commands, deliver_activation}
use python_trio_sdk.Worker.Code.{Code, Settings}
use python_trio_sdk.Worker.Task.{run_workflow, resume_workflow}
use python_trio_sdk.Worker.Ready.{IsReady, Readies, run_workflow-Readies, resume_workflow-Readies}

module _ {h : Host} where
  -- The wait returns a list of commands.
  abbrev pub HasCommands : WorkflowState h → Type 0
  HasCommands state = (cs : List (Command h.Object)) × ((wait_for_commands state).0 ≡ some (ok cs))

  IsReady-HasCommands : (state : WorkflowState h) → IsReady state → HasCommands state
  unfolding wait_for_commands
  IsReady-HasCommands state (ready, known) = elim (Option-cases state.runtime) [
    | inl q ↦ absurd (ground (arith, known, q))
    | inr (rt, q) ↦ (rt.commands, rw (ready, q, wait_for_commands) refl)
  ]

module _ {h : Host} (code : Code h) where
  -- For every workflow code whose tasks end when they are cancelled, without waiting for the workflow
  -- again: once the task of a new run gives way to the dispatcher, the dispatcher's
  -- wait for the first commands returns a list of commands: it neither blocks nor finds no runtime.
  pub first_commands_arrive :
      (settings : Settings) (activation : WorkflowActivation h.Object)
      (state state' : WorkflowState h)
      → run_workflow code settings activation state ≡ ok state'
      → HasCommands state'
  first_commands_arrive settings activation state state' p =
      IsReady-HasCommands state'
        (subst Readies p (run_workflow-Readies code settings activation state))

  -- For every workflow code whose tasks end when they are cancelled, without waiting for the workflow
  -- again: when an activation is delivered to a run that has a runtime and the run's task gives way
  -- again, the dispatcher's wait returns a list of commands, also where the activation cancels the
  -- workflow and the signal comes from behind the nursery.
  pub later_commands_arrive :
      (activation : WorkflowActivation h.Object) (state state' : WorkflowState h)
      → is_some state.runtime ≡ true
      → resume_workflow code (deliver_activation activation state) ≡ ok state'
      → HasCommands state'
  unfolding deliver_activation
  later_commands_arrive activation state state' known p =
      IsReady-HasCommands state'
        (subst Readies p (resume_workflow-Readies code (deliver_activation activation state) known))
