-- ===== src/Tests/Convert.antt =====
-- The theorems on the conversion of messages and on the poll loop.
use python_trio_sdk.Common.{
  ℕ, ◌*◌, ◌<◌, ◌≡◌, refl, true, false, Option, none, some, List, [], ◌∷◌, ◌⊎◌, is_some, map, arith,
}
use python_trio_sdk.Host.{Exception, ok, err, raised, not_implemented_error}
use python_trio_sdk.Activation
use python_trio_sdk.Activation.{Command, WorkflowActivation, timer_fired}
use python_trio_sdk.Bridge.Converters.{each}
use python_trio_sdk.Bridge.Messages.{
  BridgeActivation, signal_workflow, remove_from_cache, fire_timer, other, ActivationJob,
}
use python_trio_sdk.Bridge.Durations.{timer_duration, timeout_ms, timestamp_ns, timer_round_trip}
use python_trio_sdk.Bridge.Activations.{
  bridge_to_poc_activation, packed, collect_jobs, convert_job, append, note_eviction,
  convert_signal_workflow, reason_of, or_none, convert_initialize_workflow, started as started_job,
}
use python_trio_sdk.Bridge.JobOrder.{
  Converted, Fails, last_eviction, evicted_for, evicted_with, activation_conversion_complete,
}
use python_trio_sdk.Bridge.Commands.{
  BridgeCompletion, poc_to_bridge_completion, convert_command, with_metadata, StartChild,
  UserMetadata, start_child_workflow_execution, extended, given,
}
use python_trio_sdk.Bridge.CommandOrder.{
  message_purpose, command_purpose, Unsendable, completion_conversion_complete,
}
use python_trio_sdk.Worker.Task.{identity_of}
use python_trio_sdk.Worker.Poll.{Surroundings, Poller, Round, poll_loop}
use python_trio_sdk.Worker.Dropped.{unconvertible_activation_is_dropped, children_start_in_default}
use python_trio_sdk.Tests.World.{world, code, settings, fresh, waiting, with_run, backoff}
use python_trio_sdk.Tests.Converting.{
  fractions, converters, bridge_activation, signal_of, init, child_input, child_message,
}

timer_round_trip_example :
    (timeout_ms fractions (timer_duration 2300) ≡ 2300)
    × ((timer_duration 2300).nanos < 1000000000)
    × (timestamp_ns (timer_duration 2300) ≡ 2300 * 1000000)
timer_round_trip_example = timer_round_trip fractions 2300 (omega arith)

-- A signal, an eviction and a timer: the eviction is no job.
abbrev mixed : BridgeActivation ℕ
mixed =
    bridge_activation
      (signal_workflow (signal_of 3) ∷ remove_from_cache 0 "full" ∷ fire_timer 4 ∷ [])

activation_conversion_complete_example :
    ((poc : WorkflowActivation ℕ) × (bridge_to_poc_activation converters backoff mixed ≡ ok poc)
      × Converted converters backoff mixed.jobs poc.jobs
      × (poc.remove_from_cache ≡ is_some (last_eviction none mixed.jobs))
      × (poc.eviction_reason ≡ evicted_for (last_eviction none mixed.jobs))
      × (poc.eviction_message ≡ evicted_with (last_eviction none mixed.jobs))
      × (poc.run_id ≡ mixed.run_id))
    ⊎ ((e : Exception ℕ) × (bridge_to_poc_activation converters backoff mixed ≡ err e)
        × Fails converters backoff mixed.jobs e)
activation_conversion_complete_example = activation_conversion_complete converters backoff mixed

-- The conversion itself, on the same activation.
mixed_converts :
    bridge_to_poc_activation converters backoff mixed
    ≡ ok record {
      jobs =
          Activation.signal_workflow record { signal_name = "go"; args = 3 ∷ []; headers = [] }
          ∷ timer_fired 4
          ∷ [];
      timestamp_ns = 1000000002;
      run_id = "r";
      remove_from_cache = true;
      eviction_reason = none;
      eviction_message = some "full";
      is_replaying = false;
      randomness_seed = none;
    }
unfolding bridge_to_poc_activation packed collect_jobs convert_job append note_eviction
    convert_signal_workflow each timestamp_ns reason_of or_none
mixed_converts = refl

abbrev commands : List (Command ℕ)
commands =
    Activation.start_timer record { timer_id = 1; duration_ms = 2300; summary = none }
    ∷ Activation.complete_workflow 7
    ∷ []

completion_conversion_complete_example :
    ((comp : BridgeCompletion ℕ) × (poc_to_bridge_completion converters 0 "r" commands ≡ ok comp)
      × (comp.run_id ≡ "r")
      × (map message_purpose comp.commands ≡ map command_purpose commands))
    ⊎ ((e : Exception ℕ) × (poc_to_bridge_completion converters 0 "r" commands ≡ err e)
        × Unsendable converters 0 commands e)
completion_conversion_complete_example = completion_conversion_complete converters 0 "r" commands

abbrev surroundings : Surroundings world
surroundings = record {
  converters = converters;
  no_backoff = backoff;
  complete = λ _. ok tt;
  is_poll_shutdown = λ _. false;
}

abbrev poller : Poller world
poller = record { worker = with_run waiting; sent = [] }

abbrev round_of : List (ActivationJob ℕ) → Round ℕ
round_of jobs = record {
  shutdown_set = false;
  polled = ok (bridge_activation jobs);
  fallback = "?";
}

-- An unknown job, a timer, and the shutdown.
abbrev rounds : List (Round ℕ)
rounds =
    round_of (other "reset" ∷ [])
    ∷ round_of (fire_timer 1 ∷ [])
    ∷ record { shutdown_set = true; polled = err (raised 1); fallback = "?" }
    ∷ []

unconvertible_activation_is_dropped_example :
    poll_loop code settings surroundings (round_of (other "reset" ∷ []) ∷ []) poller
    ≡ poll_loop code settings surroundings [] poller
unfolding bridge_to_poc_activation collect_jobs convert_job
unconvertible_activation_is_dropped_example =
    unconvertible_activation_is_dropped code settings surroundings "?"
      (bridge_activation (other "reset" ∷ []))
      (not_implemented_error
        "Job type 'reset' not yet supported. Please file an issue if this is needed.")
      [] poller refl refl refl

children_start_in_default_example :
    (message : StartChild ℕ) × (metadata : Option (UserMetadata ℕ)) × (with_metadata
        (start_child_workflow_execution message)
        metadata
      ≡ with_metadata (start_child_workflow_execution child_message) none)
    × (message.namespace ≡ "default")
unfolding convert_initialize_workflow each convert_command extended given identity_of
children_start_in_default_example =
    children_start_in_default converters init (started_job converters init (2 ∷ [])) settings "r"
      (record fresh { identity = identity_of settings "r" (started_job converters init (2 ∷ [])) })
      1 child_input record { args = []; memo = none; summary = none; details = none }
      (with_metadata (start_child_workflow_execution child_message) none) refl refl refl
