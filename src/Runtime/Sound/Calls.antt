-- ===== src/Runtime/Sound/Calls.antt =====
-- temporalio_trio/worker/_runtime.py: the invariant of a run and the timers and
-- activities that workflow code awaits.
use python_trio_sdk.Common.{
  ℕ, ◌+◌, true, false, inl, inr, Option-cases, ℕ_eq, String, Option, List, Bool, Bool-cases,
}
use python_trio_sdk.Common.Dict
use python_trio_sdk.Common.Dict.{get-put, get-remove}
use python_trio_sdk.Host.{Host, Result, ok, err}
use python_trio_sdk.Activation.{Command}
use python_trio_sdk.Runtime.State.{WorkflowRuntime, Wake, event_set, scope_cancelled, ActivityInput}
use python_trio_sdk.Runtime.Wakes.{Wakes-begin, Wakes-skip, Wakes-remove}
use python_trio_sdk.Runtime.Timers.{workflow_sleep, resume_sleep}
use python_trio_sdk.Runtime.Activities.Execute.{
  begin_activity, execute_activity, execute_local_activity, resume_execute,
}
use python_trio_sdk.Runtime.Activities.Schedule.{
  register_activity, schedule_encoded, outbound_schedule_activity, outbound_schedule_local_activity,
}
use python_trio_sdk.Runtime.Activities.Requests.{StartActivityInput, StartLocalActivityInput}
use python_trio_sdk.Runtime.Sound.Invariant.{IsSoundWhen}

module _ {h : Host} {strict : Bool} where
  pub workflow_sleep-IsSound :
      (duration : ℕ) (summary : Option String) (rt : WorkflowRuntime h)
      → IsSoundWhen strict rt
      → IsSoundWhen strict (workflow_sleep duration summary rt).1
  unfolding workflow_sleep
  workflow_sleep-IsSound duration summary rt s =
      elim (Option-cases (Dict.get rt.fired_timers (rt.timer_seq + 1))) [
        | inl e ↦ rw (e, workflow_sleep) (assumption (s, Wakes-begin _ _ _ s.timers))
        | inr (t, e) ↦ rw (e, workflow_sleep) (assumption (s, Wakes-skip _ _ _ s.timers))
      ]

  pub resume_sleep-IsSound :
      (seq : ℕ) (how : Wake) (rt : WorkflowRuntime h)
      → IsSoundWhen strict rt
      → IsSoundWhen strict (resume_sleep seq how rt).1
  unfolding resume_sleep
  resume_sleep-IsSound seq scope_cancelled rt s = s
  resume_sleep-IsSound seq event_set rt s = elim (Option-cases (Dict.get rt.pending_timers seq)) [
    | inl e ↦ rw (e, resume_sleep) s
    | inr (t, e) ↦ rw (e, resume_sleep) (assumption (s, Wakes-remove _ seq _ _ s.timers))
  ]

  begin_activity-IsSound :
      (command : Command h.Object) (rt : WorkflowRuntime h)
      → IsSoundWhen strict rt
      → IsSoundWhen strict
          (begin_activity
            (rt.activity_seq + 1)
            command
            (record rt { activity_seq = rt.activity_seq + 1 })).1
  unfolding begin_activity
  begin_activity-IsSound command rt s =
      elim (Option-cases (Dict.get rt.completed_activities (rt.activity_seq + 1))) [
        | inl e ↦ rw (e, begin_activity) (assumption (s, Wakes-begin _ _ _ s.activities))
        | inr (t, e) ↦ rw (e, begin_activity) (assumption (s, Wakes-skip _ _ _ s.activities))
      ]

  pub execute_activity-IsSound :
      (name : String) (args : List h.Object) (queue id : Option String)
      → (close start run beat : Option ℕ) → (policy : Option h.Object) → (cancellation : ℕ)
      → (rt : WorkflowRuntime h) → IsSoundWhen strict rt
      → IsSoundWhen strict
          (execute_activity name args queue id close start run beat policy cancellation rt).1
  unfolding execute_activity
  execute_activity-IsSound name args queue id close start run beat policy cancellation rt s =
      begin_activity-IsSound _ rt s

  pub execute_local_activity-IsSound :
      (name : String) (args : List h.Object) (id : Option String)
      → (close start run : Option ℕ) → (policy : Option h.Object) → (threshold : Option ℕ)
      → (cancellation : ℕ) → (rt : WorkflowRuntime h) → IsSoundWhen strict rt
      → IsSoundWhen strict
          (execute_local_activity name args id close start run policy threshold cancellation rt).1
  unfolding execute_local_activity
  execute_local_activity-IsSound name args id close start run policy threshold cancellation rt s =
      begin_activity-IsSound _ rt s

  pub resume_execute-IsSound :
      (seq : ℕ) (how : Wake) (rt : WorkflowRuntime h)
      → IsSoundWhen strict rt
      → IsSoundWhen strict (resume_execute seq how rt).1
  unfolding resume_execute
  resume_execute-IsSound seq scope_cancelled rt s = s
  resume_execute-IsSound seq event_set rt s =
      elim (Option-cases (Dict.get rt.completed_activities seq)) [
        | inl e ↦ rw (e, resume_execute) s
        | inr (x, e) ↦ elim (Bool-cases (Dict.has rt.pending_activities seq)) [
          | inl p ↦ rw (e, p, resume_execute) (assumption (s, Wakes-remove _ seq _ _ s.activities))
          | inr p ↦ rw (e, p, resume_execute) s
        ]
      ]

  register_activity-IsSound :
      (input : ActivityInput h.Object) (command : ℕ → Command h.Object) (rt : WorkflowRuntime h)
      → IsSoundWhen strict rt
      → IsSoundWhen strict (register_activity input command rt).1
  unfolding register_activity
  register_activity-IsSound input command rt s =
      elim (Bool-cases (Dict.has rt.completed_activities (rt.activity_seq + 1))) [
        | inl e ↦ rw (e, register_activity) (assumption (s, Wakes-skip _ _ _ s.activities))
        | inr e ↦ rw (e, register_activity) (assumption (s, Wakes-begin _ _ _ s.activities))
      ]

  schedule_encoded-IsSound :
      (untimed : Bool)
      → (args : Result h.Object (List h.Object)) → (summary : Result h.Object (Option h.Object))
      → (input : ActivityInput h.Object)
      → (command : List h.Object → Option h.Object → ℕ → Command h.Object)
      → (rt : WorkflowRuntime h) → IsSoundWhen strict rt
      → IsSoundWhen strict (schedule_encoded untimed args summary input command rt).1
  unfolding schedule_encoded
  schedule_encoded-IsSound true args summary input command rt s = s
  schedule_encoded-IsSound false (err e) summary input command rt s = s
  schedule_encoded-IsSound false (ok args) (err e) input command rt s = s
  schedule_encoded-IsSound false (ok args) (ok summary) input command rt s =
      register_activity-IsSound input (command args summary) rt s

  pub outbound_schedule_activity-IsSound :
      (input : StartActivityInput h.Object) (rt : WorkflowRuntime h)
      → IsSoundWhen strict rt
      → IsSoundWhen strict (outbound_schedule_activity input rt).1
  unfolding outbound_schedule_activity
  outbound_schedule_activity-IsSound input rt s = schedule_encoded-IsSound _ _ _ _ _ rt s

  pub outbound_schedule_local_activity-IsSound :
      (input : StartLocalActivityInput h.Object) (rt : WorkflowRuntime h)
      → IsSoundWhen strict rt
      → IsSoundWhen strict (outbound_schedule_local_activity input rt).1
  unfolding outbound_schedule_local_activity
  outbound_schedule_local_activity-IsSound input rt s = schedule_encoded-IsSound _ _ _ _ _ rt s
