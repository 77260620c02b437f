-- ===== src/Runtime/Backoffs.antt =====
-- temporalio_trio/worker/_runtime.py: local activities that sdk-core wants to be tried again.
use python_trio_sdk.Common.{
  ℕ, suc, ◌+◌, ◌≡◌, ◌≢◌, none, some, ℕ_eq, arith, Option-cases, inl, inr, refl, Option, ap, is_some,
}
use python_trio_sdk.Common.Dict
use python_trio_sdk.Host.{Host, Result, ok, err}
use python_trio_sdk.Activation.{DoBackoff}
use python_trio_sdk.Runtime.State.{
  WorkflowRuntime, Outcome, value, error, activity_backoff, Await, done, blocked,
}
use python_trio_sdk.Runtime.Activities.Waiting.{
  out_of_fuel, reschedule, begin_backoff, after_sleep, after_backoff, workflow_wait_activity,
}
use python_trio_sdk.Runtime.Sound.Invariant.{IsSound}

module _ {h : Host} where
  completed_same_sleep :
      (b : DoBackoff h.Object) (rt : WorkflowRuntime h)
      → (begin_backoff b rt).1.completed_activities ≡ rt.completed_activities
  unfolding begin_backoff
  completed_same_sleep b rt = ground arith

  activity_seq_same_sleep :
      (b : DoBackoff h.Object) (rt : WorkflowRuntime h)
      → (begin_backoff b rt).1.activity_seq ≡ rt.activity_seq
  unfolding begin_backoff
  activity_seq_same_sleep b rt = ground arith

  completed_same_reschedule :
      (seq : ℕ) (b : DoBackoff h.Object) (rt : WorkflowRuntime h)
      → (reschedule seq b rt).1.completed_activities ≡ rt.completed_activities
  unfolding reschedule
  completed_same_reschedule seq b rt = ground arith

  reschedule_next :
      (seq n : ℕ) (b : DoBackoff h.Object) (rt : WorkflowRuntime h)
      → (reschedule seq b rt).0 ≡ ok n
      → n ≡ rt.activity_seq + 1
  unfolding reschedule
  reschedule_next seq n b rt p = ground arith

  -- A loop that finds no outcome waits.
  await_ne_fuel :
      (fuel seq : ℕ) (rt : WorkflowRuntime h)
      → Dict.get rt.completed_activities seq ≡ none
      → (workflow_wait_activity (suc fuel) seq rt).0 ≢ out_of_fuel
  unfolding workflow_wait_activity
  await_ne_fuel fuel seq rt open_yet = rw (open_yet, workflow_wait_activity) (λ e. cc)

  module _ (fuel seq : ℕ) (b : DoBackoff h.Object) (rt : WorkflowRuntime h)
      (none_above : (n : ℕ)
        → n ≡ rt.activity_seq + 1
        → Dict.get rt.completed_activities n ≡ none) where
    after_backoff_ne_fuel :
        (after_backoff (workflow_wait_activity (suc fuel)) seq b rt).0 ≢ out_of_fuel
    unfolding after_backoff
    after_backoff_ne_fuel = go (reschedule seq b rt).0 refl
      where
        go :
            (r : Result h.Object ℕ)
            → (reschedule seq b rt).0 ≡ r
            → (after_backoff (workflow_wait_activity (suc fuel)) seq b rt).0 ≢ out_of_fuel
        go (err e) p = rw (p, after_backoff) (λ q. cc)
        go (ok n) p =
            rw (p, after_backoff)
              (await_ne_fuel fuel n (reschedule seq b rt).1
                (rw completed_same_reschedule (none_above n (reschedule_next seq n b rt p))))

    after_sleep_ne_fuel :
        (slept : Await h.Object (Unit {0}))
        → (after_sleep (workflow_wait_activity (suc fuel)) seq b slept rt).0 ≢ out_of_fuel
    unfolding after_sleep
    after_sleep_ne_fuel (blocked wait) = λ q. cc
    after_sleep_ne_fuel (done (err e)) = λ q. cc
    after_sleep_ne_fuel (done (ok _)) = after_backoff_ne_fuel

  -- The `while True` loop of workflow_wait_activity ends: in a sound state two rounds are enough to
  -- come to a result or to an await, whatever the number that is waited for, since the number of a retry
  -- is fresh and has no outcome.
  pub wait_activity_ends :
      (fuel seq : ℕ) (rt : WorkflowRuntime h)
      → IsSound rt
      → (workflow_wait_activity (suc (suc fuel)) seq rt).0 ≢ out_of_fuel
  unfolding workflow_wait_activity
  wait_activity_ends fuel seq rt s = go (Dict.get rt.completed_activities seq) refl
    where
      above :
          (b : DoBackoff h.Object) (n : ℕ)
          → n ≡ (begin_backoff b rt).1.activity_seq + 1
          → Dict.get (begin_backoff b rt).1.completed_activities n ≡ none
      above b n e =
          rw completed_same_sleep (elim (Option-cases (Dict.get rt.completed_activities n)) [
            | inl q ↦ q
            | inr (x, q) ↦ absurd (
                omega (
                  arith,
                  activity_seq_same_sleep b rt,
                  s.activities.recorded_issued n (ap is_some q),
                  e,
                ))
          ])

      go :
          (found : Option (Outcome h.Object))
          → Dict.get rt.completed_activities seq ≡ found
          → (workflow_wait_activity (suc (suc fuel)) seq rt).0 ≢ out_of_fuel
      go none p = await_ne_fuel (suc fuel) seq rt p
      go (some (value v)) p = rw (p, workflow_wait_activity) (λ q. cc)
      go (some (error e)) p = rw (p, workflow_wait_activity) (λ q. cc)
      go (some (activity_backoff b)) p =
          rw (p, workflow_wait_activity)
            (after_sleep_ne_fuel fuel seq b (begin_backoff b rt).1 (above b) (begin_backoff b rt).0)
