-- ===== src/Tests/Runs.antt =====
-- The theorems on the dispatcher, at small workers.
use python_trio_sdk.Common.{
  name_eq, ◌≡◌, refl, true, false, none, List, [], ◌∷◌, ◌++◌, ℕ, string_eq,
}
use python_trio_sdk.Common.Dict
use python_trio_sdk.Common.Dict.{get, put}
use python_trio_sdk.Runtime.New.{new_runtime}
use python_trio_sdk.Host.{ok, err, raised}
use python_trio_sdk.Activation.{
  Command, workflow_started, query_workflow, signal_workflow, complete_workflow,
}
use python_trio_sdk.Runtime.Handlers.{register_update_handler}
use python_trio_sdk.Worker.Register.{
  find_definition, register_handlers, register_named, register_updates,
}
use python_trio_sdk.Worker.State.{new_state, deliver_activation, signal_commands_ready}
use python_trio_sdk.Worker.Task.{run_workflow, resume_workflow, execute_workflow_main, started_job}
use python_trio_sdk.Worker.Dispatch.{dispatch_activation, extract_run_id, send_completion}
use python_trio_sdk.Worker.Arrivals.{HasCommands, first_commands_arrive, later_commands_arrive}
use python_trio_sdk.Worker.Runs.{one_completion_per_activation, evicted_run_is_unknown}
use python_trio_sdk.Worker.Frozen.{
  IsFrozen, complete_run_is_kept, failed_run_is_replayed_as_completed,
}
use python_trio_sdk.Worker.State.{take_activation, take_commands}
use python_trio_sdk.Worker.Apply.{
  apply_jobs, apply_job, and_then, deferred_queries, deferred_updates, apply_queries, apply_updates,
}
use python_trio_sdk.Worker.Queries.{
  apply_query_async, query_found, query_read_only, respond, handle_query,
}
use python_trio_sdk.Worker.Task.{
  end_turn, nursery_cancelled, is_taken, identity_of, first_activation, next_activation,
  run_deferred, wait_and_signal, settled, signal_once,
}
use python_trio_sdk.Worker.Dispatch.{
  dispatch_run, dispatch_cached, dispatch_known, await_commands, finish, put_state,
}
use python_trio_sdk.Tests.World.{
  world, state_of, code, settings, activation, started, query, signal, waiting, complete, with_run,
  fresh,
}

one_completion_per_activation_example :
    (cs : List (Command ℕ)) × ((dispatch_activation code settings "?"
        (activation false (query_workflow query ∷ []))
        (with_run waiting)).1.completions
      ≡ [] ++ record { run_id = "r"; commands = cs } ∷ [])
unfolding new_runtime find_definition register_handlers register_named register_updates
    register_update_handler get put dispatch_activation extract_run_id dispatch_run dispatch_cached
    dispatch_known deliver_activation resume_workflow take_activation next_activation apply_jobs
    apply_job and_then run_deferred deferred_queries deferred_updates apply_queries apply_updates
    apply_query_async query_found query_read_only respond handle_query wait_and_signal settled
    signal_once signal_commands_ready end_turn nursery_cancelled is_taken await_commands
    take_commands finish send_completion put_state started_job
one_completion_per_activation_example =
    one_completion_per_activation code settings "?" "r"
      (activation false (query_workflow query ∷ [])) (with_run waiting) refl refl

evicted_run_is_unknown_example :
    (Dict.get
        (dispatch_activation code settings "?"
          (activation true [])
          (with_run waiting)).1.workflow_states
        "r"
      ≡ none)
    × (dispatch_activation code settings "?"
          (activation false [])
          (dispatch_activation code settings "?" (activation true []) (with_run waiting)).1
        ≡ (
          ok tt,
          send_completion "r" []
              (dispatch_activation code settings "?" (activation true []) (with_run waiting)).1,
        ))
unfolding extract_run_id started_job
evicted_run_is_unknown_example =
    evicted_run_is_unknown code settings "?" "r" (activation true []) (activation false [])
      (with_run waiting) refl refl refl refl refl

first_commands_arrive_example : HasCommands (
    state_of (
      run_workflow code settings
        (activation false (workflow_started started ∷ []))
        (new_state world "r")))
unfolding new_runtime find_definition register_handlers register_named register_updates
    register_update_handler get put dispatch_activation extract_run_id dispatch_run dispatch_cached
    dispatch_known deliver_activation resume_workflow take_activation next_activation apply_jobs
    apply_job and_then run_deferred deferred_queries deferred_updates apply_queries apply_updates
    apply_query_async query_found query_read_only respond handle_query wait_and_signal settled
    signal_once signal_commands_ready end_turn nursery_cancelled is_taken await_commands
    take_commands finish send_completion put_state started_job run_workflow new_state identity_of
    first_activation
first_commands_arrive_example =
    first_commands_arrive code settings (activation false (workflow_started started ∷ []))
      (new_state world "r")
      (state_of (
        run_workflow code settings (activation false (workflow_started started ∷ []))
          (new_state world "r")))
      refl

later_commands_arrive_example : HasCommands (
    state_of (
      resume_workflow code
        (deliver_activation (activation false (query_workflow query ∷ [])) waiting)))
unfolding new_runtime find_definition register_handlers register_named register_updates
    register_update_handler get put dispatch_activation extract_run_id dispatch_run dispatch_cached
    dispatch_known deliver_activation resume_workflow take_activation next_activation apply_jobs
    apply_job and_then run_deferred deferred_queries deferred_updates apply_queries apply_updates
    apply_query_async query_found query_read_only respond handle_query wait_and_signal settled
    signal_once signal_commands_ready end_turn nursery_cancelled is_taken await_commands
    take_commands finish send_completion put_state started_job
later_commands_arrive_example =
    later_commands_arrive code (activation false (query_workflow query ∷ [])) waiting
      (state_of (
        resume_workflow code
          (deliver_activation (activation false (query_workflow query ∷ [])) waiting)))
      refl refl

complete_run_is_kept_example :
    IsFrozen "r" 9
      (dispatch_activation code settings "?"
        (activation false (signal_workflow signal ∷ []))
        (with_run complete)).1
unfolding extract_run_id get
complete_run_is_kept_example =
    complete_run_is_kept code settings "?" "r" (activation false (signal_workflow signal ∷ []))
      complete (with_run complete) refl refl refl refl

failed_run_is_replayed_as_completed_example :
    dispatch_activation code settings "?"
      (activation false (workflow_started started ∷ []))
      (with_run (execute_workflow_main code (err (raised 7)) waiting fresh).0)
    ≡ (
      ok tt,
      send_completion "r"
          (complete_workflow 0 ∷ [])
          (with_run (execute_workflow_main code (err (raised 7)) waiting fresh).0),
    )
unfolding extract_run_id started_job get
failed_run_is_replayed_as_completed_example =
    failed_run_is_replayed_as_completed code settings "?" "r"
      (activation false (workflow_started started ∷ [])) waiting fresh (raised 7)
      (with_run (execute_workflow_main code (err (raised 7)) waiting fresh).0) refl refl refl refl
      refl
