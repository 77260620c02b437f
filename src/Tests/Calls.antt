-- ===== src/Tests/Calls.antt =====
-- The theorems on the calls of workflow code, at small runs.
use python_trio_sdk.Common.{
  ◌≢◌, ◌≡◌, ◌≢◌, ◌↔◌, ◌≤◌, ◌+◌, refl, true, false, none, some, [], ◌∷◌, ◌++◌, ℕ, ℕ_eq, string_eq,
  arith,
}
use python_trio_sdk.Common.Dict
use python_trio_sdk.Common.Dict.{get, put, remove}
use python_trio_sdk.Host.{err, timeout_error}
use python_trio_sdk.Runtime.State.{WorkflowRuntime, Outcome, raise_or_return, event_set, done}
use python_trio_sdk.Runtime.New.{new_runtime}
use python_trio_sdk.Runtime.Timers.{workflow_sleep, apply_timer_fired}
use python_trio_sdk.Runtime.Activities.Execute.{execute_activity, begin_activity, resume_execute}
use python_trio_sdk.Runtime.Activities.Resolve.{
  apply_activity_resolved, resolution, store_activity, decode_result,
}
use python_trio_sdk.Runtime.Activities.Waiting.{workflow_wait_activity, out_of_fuel}
use python_trio_sdk.Runtime.Moves.{
  Reach, here, next, sleep, timer_fires, execute, activity_resolves,
}
use python_trio_sdk.Runtime.Sound.Invariant.{IsSound, StartsWoken}
use python_trio_sdk.Runtime.Sound.Reach.{reachable-IsSound}
use python_trio_sdk.Runtime.Wakeups.{execute_resumes_with_outcome}
use python_trio_sdk.Runtime.Backoffs.{wait_activity_ends}
use python_trio_sdk.Runtime.Activities.Requests.{StartActivityInput}
use python_trio_sdk.Runtime.Patches.{workflow_patch, apply_notify_has_patch}
use python_trio_sdk.Runtime.PatchAnswers.{patch_replays}
use python_trio_sdk.Runtime.Conditions.{
  workflow_wait_condition, resume_condition, zero_timeout, positive, negative,
  notify_condition_waiters,
}
use python_trio_sdk.Runtime.Refusals.{contains_event, timeout_exact, waiter_is_notified}
use python_trio_sdk.Tests.World.{world, identity, fresh, resolved}

abbrev sleeping : WorkflowRuntime world
sleeping = (workflow_sleep 5 none fresh).1

abbrev fired : WorkflowRuntime world
fired = apply_timer_fired 1 9 sleeping

Reach-fired : Reach fresh fired
unfolding new_runtime workflow_sleep get
Reach-fired = next (next here (sleep 5 none)) (timer_fires 1 9 (omega arith))

reachable-IsSound_example : IsSound fired × StartsWoken fired
unfolding new_runtime
reachable-IsSound_example = reachable-IsSound world identity 5 false true fired Reach-fired

abbrev executing : WorkflowRuntime world
executing = (execute_activity "Hello" [] none none none none none none none 0 fresh).1

abbrev executed : WorkflowRuntime world
executed = (apply_activity_resolved resolved executing).1

Reach-executed : Reach fresh executed
unfolding new_runtime execute_activity begin_activity get
Reach-executed =
    next (next here (execute "Hello" [] none none none none none none none 0))
      (activity_resolves resolved (omega arith))

execute_resumes_with_outcome_example :
    (x : Outcome ℕ) × (Dict.get executed.completed_activities 1 ≡ some x)
    × ((resume_execute 1 event_set executed).0 ≡ raise_or_return x)
    × (Dict.get (resume_execute 1 event_set executed).1.pending_activities 1 ≡ none)
unfolding new_runtime execute_activity begin_activity apply_activity_resolved store_activity
    resolution decode_result get put
execute_resumes_with_outcome_example =
    execute_resumes_with_outcome 1 true executed
      (reachable-IsSound world identity 5 false true executed Reach-executed).0 refl refl

wait_activity_ends_example : (workflow_wait_activity 2 1 executed).0 ≢ out_of_fuel
unfolding new_runtime
wait_activity_ends_example =
    wait_activity_ends 0 1 executed
      (reachable-IsSound world identity 5 false true executed Reach-executed).0

patch_replays_example :
    (workflow_patch "p" false (apply_notify_has_patch "p" (record fresh { is_replaying = true }))).0
    ≡ (workflow_patch "p" false fresh).0
unfolding new_runtime get
patch_replays_example =
    patch_replays "p" false fresh (record fresh { is_replaying = true }) refl refl refl

timeout_exact_example :
    ((resume_condition 0 2 none false event_set fresh).0 ≢ done (err timeout_error))
    × ((resume_condition 0 2 (some zero_timeout) false event_set fresh).0
        ≢ done (err timeout_error))
    × ((ns : ℕ)
        → ((resume_condition 0 2 (some (positive ns)) false event_set fresh).0
            ≡ done (err timeout_error))
          ↔ (2 + ns ≤ 5))
    × ((ns : ℕ)
        → ((resume_condition 0 2 (some (negative ns)) false event_set fresh).0
            ≡ done (err timeout_error))
          ↔ (2 ≤ 5 + ns))
unfolding new_runtime
timeout_exact_example = timeout_exact 0 2 false fresh

waiter_is_notified_example :
    (contains_event
        (notify_condition_waiters (record (workflow_wait_condition false fresh).1 {
          condition_waiters = (workflow_wait_condition false fresh).1.condition_waiters ++ 3 ∷ [];
        })).set_conditions
        0
      ≡ true)
    × ((notify_condition_waiters (record (workflow_wait_condition false fresh).1 {
      condition_waiters = (workflow_wait_condition false fresh).1.condition_waiters ++ 3 ∷ [];
    })).condition_waiters
        ≡ [])
unfolding new_runtime
waiter_is_notified_example = waiter_is_notified fresh (3 ∷ [])

-- Neither start_to_close_timeout nor schedule_to_close_timeout is given.
abbrev untimed : StartActivityInput ℕ
untimed = record {
  activity = "Hello";
  args = [];
  activity_id = none;
  task_queue = none;
  schedule_to_close_timeout = none;
  schedule_to_start_timeout = none;
  start_to_close_timeout = none;
  heartbeat_timeout = none;
  retry_policy = none;
  cancellation_type = 0;
  headers = [];
  disable_eager_execution = false;
  versioning_intent = none;
  summary = none;
  priority = 0;
  arg_types = none;
  ret_type = none;
}
