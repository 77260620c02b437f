-- ===== src/Tests/Faults.antt =====
-- The theorems on activations and calls that go wrong.
use python_trio_sdk.Common.{◌≡◌, refl, true, false, none, some, [], ◌∷◌, ℕ, name_eq, ℕ_eq}
use python_trio_sdk.Common.Dict
use python_trio_sdk.Common.Dict.{get, put}
use python_trio_sdk.Host.{ok, err, raised, key_error}
use python_trio_sdk.Activation.{
  activity_resolved, cancel_workflow_execution, fail_workflow, cancel_external_resolved,
  signal_external_resolved, SignalExternalResolvedJob, CancelExternalResolvedJob, update_response,
  ActivityResolvedJob, Status,
}
use python_trio_sdk.Runtime.State.{WorkflowRuntime, event_set, emit, signal_handler}
use python_trio_sdk.Runtime.New.{new_runtime}
use python_trio_sdk.Runtime.Handlers.{workflow_all_handlers_finished}
use python_trio_sdk.Runtime.Wakeups.{start_failure_raises_key_error}
use python_trio_sdk.Runtime.Activities.Resolve.{apply_activity_resolved, resolution, decode_failure}
use python_trio_sdk.Runtime.Children.Start.{resume_child_start}
use python_trio_sdk.Runtime.Children.Result.{apply_child_workflow_start_failed}
use python_trio_sdk.Worker.State.{WorkflowState, wait_for_commands}
use python_trio_sdk.Worker.Task.{next_activation}
use python_trio_sdk.Worker.Apply.{apply_jobs, apply_job, and_then}
use python_trio_sdk.Worker.Updates.{apply_update_async, reject}
use python_trio_sdk.Worker.Signals.{apply_signal}
use python_trio_sdk.Worker.Faults.{cancel_is_never_resolved, failed_activation_ends_workflow_twice}
use python_trio_sdk.Worker.Registered.{
  replace, replaced_handler_keeps_validator, running_signal_counts_as_finished,
}
use python_trio_sdk.Tests.World.{
  world, call, code, fresh, handling, activation, waiting, update, signal, resolved, start_failed,
}

-- A signal and a cancel request that wait under number 1.
abbrev requesting : WorkflowRuntime world
requesting = record fresh {
  pending_external_signals = (1, false) ∷ [];
  pending_external_cancels = (1, false) ∷ [];
}

abbrev signalled : SignalExternalResolvedJob ℕ
signalled = record { seq = 1; failure = none }

abbrev requested : CancelExternalResolvedJob ℕ
requested = record { seq = 1; failure = none }

cancel_is_never_resolved_example :
    (Dict.get
        (apply_job call 8
          (signal_external_resolved signalled)
          requesting).1.pending_external_signals
        1
      ≡ some true)
    × (apply_jobs call 8 (cancel_external_resolved requested ∷ []) requesting ≡ (ok tt, requesting))
unfolding new_runtime get
cancel_is_never_resolved_example =
    cancel_is_never_resolved call 8 signalled requested requesting false refl

start_failure_raises_key_error_example :
    (Dict.get
        (apply_child_workflow_start_failed start_failed
          (record fresh { pending_child_starts = (1, false) ∷ [] })).pending_child_starts
        1
      ≡ some true)
    × ((resume_child_start 1 "child" event_set (
          apply_child_workflow_start_failed start_failed
            (record fresh { pending_child_starts = (1, false) ∷ [] }))).0
        ≡ err (key_error 1))
unfolding new_runtime get
start_failure_raises_key_error_example =
    start_failure_raises_key_error start_failed "child" false
      (record fresh { pending_child_starts = (1, false) ∷ [] }) refl refl

running_signal_counts_as_finished_example :
    ((apply_signal call signal (record (handling fresh) {
      nursery = some (record { cancel_called = false; tasks = [] });
    })).1.nursery
      ≡ some (record { cancel_called = false; tasks = signal_handler 4 "go" ∷ [] }))
    × (workflow_all_handlers_finished
          (apply_signal call signal (record (handling fresh) {
            nursery = some (record { cancel_called = false; tasks = [] });
          })).1
        ≡ true)
unfolding new_runtime get workflow_all_handlers_finished
running_signal_counts_as_finished_example =
    running_signal_counts_as_finished call signal 1 4 (record { cancel_called = false; tasks = [] })
      (record (handling fresh) { nursery = some (record { cancel_called = false; tasks = [] }) })
      refl refl refl

replaced_handler_keeps_validator_example :
    apply_update_async call update (replace call "set" 0 1 7 fresh) ≡ (
      ok tt,
      emit
          (update_response (reject update (raised 7)))
          (call 7 (7 ∷ []) (replace call "set" 0 1 7 fresh)).1,
    )
replaced_handler_keeps_validator_example =
    replaced_handler_keeps_validator call update 0 1 7 (raised 7) fresh refl refl refl

-- The result of an activity whose failure cannot be decoded.
abbrev broken : ActivityResolvedJob ℕ
broken = record resolved { status = Status.failed; result_payload = none; failure_proto = some 3 }

abbrev later : WorkflowRuntime world
later = record (handling fresh) { time_ns = 8 }

failed_activation_ends_workflow_twice_example :
    (state : WorkflowState world) × (next_activation code
        (activation false (activity_resolved broken ∷ []))
        waiting
        (handling fresh)
      ≡ ok state)
    × ((wait_for_commands state).0
        ≡ some (ok (cancel_workflow_execution ∷ fail_workflow (raised 3) ∷ [])))
unfolding new_runtime apply_jobs apply_job and_then apply_activity_resolved resolution
    decode_failure get
failed_activation_ends_workflow_twice_example =
    failed_activation_ends_workflow_twice code (activation false (activity_resolved broken ∷ []))
      waiting (handling fresh) later later (raised 3) refl refl refl
