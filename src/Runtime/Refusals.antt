-- ===== src/Runtime/Refusals.antt =====
-- temporalio_trio/worker/_runtime.py: calls that are refused, and waits for a condition.
use python_trio_sdk.Common.{
  ℕ, ◌+◌, ◌≤◌, ◌≡◌, ◌≢◌, none, Bool, true, false, some, Option, List, [], ◌∷◌, ◌++◌, ℕ_eq, arith,
  nat_eq, ◌||◌, refl, ◌↔◌,
}
use python_trio_sdk.Host.{Host, Exception, Result, ok, err, timeout_error}
use python_trio_sdk.Activation.{Command}
use python_trio_sdk.Runtime.State.{
  WorkflowRuntime, ActivityInput, done, blocked, condition, event_set,
}
use python_trio_sdk.Runtime.Activities.Requests.{StartActivityInput, StartLocalActivityInput}
use python_trio_sdk.Runtime.Activities.Schedule.{
  schedule_encoded, outbound_schedule_activity, outbound_schedule_local_activity,
}
use python_trio_sdk.Runtime.Conditions.{
  notify_condition_waiters, workflow_wait_condition, resume_condition, zero_timeout, positive,
  negative,
}

abbrev pub contains_event : List ℕ → ℕ → Bool
contains_event [] e = false
contains_event (f ∷ events) e = nat_eq f e || contains_event events e

contains_event-append :
    (xs ys : List ℕ) (e : ℕ)
    → contains_event (xs ++ ys) e ≡ (contains_event xs e || contains_event ys e)
contains_event-append [] ys e = refl
contains_event-append (x ∷ xs) ys e = ground (arith, contains_event-append xs ys e)

module _ {h : Host} where
  schedule_encoded_refused :
      (untimed : Bool) (args : Result h.Object (List h.Object))
      (summary : Result h.Object (Option h.Object))
      → (input : ActivityInput h.Object)
        (command : List h.Object → Option h.Object → ℕ → Command h.Object)
      → (e : Exception h.Object) (rt : WorkflowRuntime h)
      → (schedule_encoded untimed args summary input command rt).0 ≡ err e
      → (schedule_encoded untimed args summary input command rt).1 ≡ rt
  unfolding schedule_encoded
  schedule_encoded_refused true args summary input command e rt p = refl
  schedule_encoded_refused false (err x) summary input command e rt p = refl
  schedule_encoded_refused false (ok args) (err x) input command e rt p = refl
  schedule_encoded_refused false (ok args) (ok summary) input command e rt p = cc

  -- Scheduling an activity that raises, for want of a timeout or in a converter, leaves the runtime as it
  -- was: no number is taken, no command emitted.
  schedule_refused_unchanged :
      (input : StartActivityInput h.Object) (e : Exception h.Object) (rt : WorkflowRuntime h)
      → (outbound_schedule_activity input rt).0 ≡ err e
      → (outbound_schedule_activity input rt).1 ≡ rt
  unfolding outbound_schedule_activity
  schedule_refused_unchanged input e rt p = schedule_encoded_refused _ _ _ _ _ e rt p

  -- The same for a local activity.
  pub schedule_local_refused_unchanged :
      (input : StartLocalActivityInput h.Object) (e : Exception h.Object) (rt : WorkflowRuntime h)
      → (outbound_schedule_local_activity input rt).0 ≡ err e
      → (outbound_schedule_local_activity input rt).1 ≡ rt
  unfolding outbound_schedule_local_activity
  schedule_local_refused_unchanged input e rt p = schedule_encoded_refused _ _ _ _ _ e rt p

  -- Waiting for a condition that does not hold emits no command and starts no timer, whatever the
  -- timeout.
  pub wait_condition_starts_no_timer :
      (rt : WorkflowRuntime h)
      → ((workflow_wait_condition false rt).0 ≡ blocked (condition rt.next_condition))
        × ((workflow_wait_condition false rt).1.commands ≡ rt.commands)
        × ((workflow_wait_condition false rt).1.timer_seq ≡ rt.timer_seq)
        × ((workflow_wait_condition false rt).1.pending_timers ≡ rt.pending_timers)
  unfolding workflow_wait_condition
  wait_condition_starts_no_timer rt = (refl, refl, refl, refl)

  -- A wait that is notified, whether its condition holds or not: without a timeout, and with a timeout
  -- of zero, it does not raise TimeoutError. With a positive timeout it raises it exactly when as many
  -- nanoseconds have passed since its start, and with a negative one exactly when the clock is at most
  -- as many nanoseconds before its start.
  pub timeout_exact :
      (event start : ℕ) (holds : Bool) (rt : WorkflowRuntime h)
      → ((resume_condition event start none holds event_set rt).0 ≢ done (err timeout_error))
        × ((resume_condition event start (some zero_timeout) holds event_set rt).0
            ≢ done (err timeout_error))
        × ((ns : ℕ)
            → ((resume_condition event start (some (positive ns)) holds event_set rt).0
                ≡ done (err timeout_error))
              ↔ (start + ns ≤ rt.time_ns))
        × ((ns : ℕ)
            → ((resume_condition event start (some (negative ns)) holds event_set rt).0
                ≡ done (err timeout_error))
              ↔ (start ≤ rt.time_ns + ns))
  unfolding resume_condition
  timeout_exact event start holds rt = (
    (λ p. ground arith),
    (λ p. ground arith),
    (λ ns. (λ p. ground arith, λ q. ground arith)),
    (λ ns. (λ p. ground arith, λ q. ground arith)),
  )

  -- A wait for a condition that does not hold is a waiter; whatever others register or leave behind it,
  -- the next notification sets its event, as that of every other waiter, and leaves no waiter.
  pub waiter_is_notified :
      (rt : WorkflowRuntime h) (others : List ℕ)
      → let waiting = (workflow_wait_condition false rt).1 in
        let notified =
          notify_condition_waiters
            (record waiting { condition_waiters = waiting.condition_waiters ++ others }) in
        (contains_event notified.set_conditions rt.next_condition ≡ true)
        × (notified.condition_waiters ≡ [])
  unfolding workflow_wait_condition notify_condition_waiters
  waiter_is_notified rt others =
      let e = rt.next_condition in
      (
        ground (
          arith,
          contains_event-append ((rt.condition_waiters ++ e ∷ []) ++ others) rt.set_conditions e,
          contains_event-append (rt.condition_waiters ++ e ∷ []) others e,
          contains_event-append rt.condition_waiters (e ∷ []) e,
        ),
        refl,
      )
