-- ===== src/Runtime/Sound/Backoff.antt =====
-- temporalio_trio/worker/_runtime.py: the invariant of a run and the wait for
-- an activity, with the retries of a local one.
use python_trio_sdk.Common.{
  Bool, ℕ, zero, suc, ◌≤◌, ◌≡◌, refl, none, some, inl, inr, arith, Option-cases, ℕ_eq, Option,
  Bool-cases, ltb,
}
use python_trio_sdk.Common.Dict
use python_trio_sdk.Common.Dict.{get-put, get-remove}
use python_trio_sdk.Host.{Host, Result, ok, err}
use python_trio_sdk.Activation.{DoBackoff}
use python_trio_sdk.Runtime.State.{
  WorkflowRuntime, Wake, event_set, scope_cancelled, Outcome, value, error, activity_backoff, Await,
  done, blocked,
}
use python_trio_sdk.Runtime.Wakes.{Wakes-begin, Wakes-remove, Wakes-again}
use python_trio_sdk.Runtime.Activities.Waiting.{
  Waiting, find_local, reschedule, begin_backoff, after_backoff, after_sleep, await_activity,
  workflow_wait_activity, finish_activity, resume_wait_activity, resume_backoff, backoff_ns,
}
use python_trio_sdk.Runtime.Timers.{resume_sleep}
use python_trio_sdk.Runtime.Sound.Invariant.{IsSoundWhen}
use python_trio_sdk.Runtime.Sound.Calls.{workflow_sleep-IsSound, resume_sleep-IsSound}

module _ {h : Host} where
  -- A number that is given out is not above the counter.
  reschedule_issued :
      (seq n : ℕ) (b : DoBackoff h.Object) (rt : WorkflowRuntime h)
      → (reschedule seq b rt).0 ≡ ok n
      → n ≤ (reschedule seq b rt).1.activity_seq
  unfolding reschedule
  reschedule_issued seq n b rt p = ground arith

module _ {h : Host} {strict : Bool} where
  reschedule-IsSound :
      (seq : ℕ) (b : DoBackoff h.Object) (rt : WorkflowRuntime h)
      → IsSoundWhen strict rt
      → IsSoundWhen strict (reschedule seq b rt).1
  unfolding reschedule
  reschedule-IsSound seq b rt s = elim (Option-cases (find_local seq rt.commands)) [
    | inl e ↦ rw (e, reschedule) s
    | inr (c, e) ↦ rw (e, reschedule) (assumption (s, Wakes-begin _ _ _ s.activities))
  ]

  begin_backoff-IsSound :
      (b : DoBackoff h.Object) (rt : WorkflowRuntime h)
      → IsSoundWhen strict rt
      → IsSoundWhen strict (begin_backoff b rt).1
  unfolding begin_backoff
  begin_backoff-IsSound b rt s = elim (Bool-cases (ltb 0 (backoff_ns b))) [
    | inl e ↦ rw (e, begin_backoff) (workflow_sleep-IsSound _ _ rt s)
    | inr e ↦ rw (e, begin_backoff) s
  ]

  await_activity-IsSound :
      (seq : ℕ) (rt : WorkflowRuntime h)
      → seq ≤ rt.activity_seq
      → Dict.get rt.completed_activities seq ≡ none
      → IsSoundWhen strict rt
      → IsSoundWhen strict (await_activity seq rt).1
  unfolding await_activity
  await_activity-IsSound seq rt issued open_yet s =
      elim (Bool-cases (Dict.has rt.pending_activities seq)) [
        | inl e ↦ rw (e, await_activity) (assumption s)
        | inr e ↦
            rw (e, await_activity)
              (assumption (s, Wakes-again _ seq _ _ issued open_yet s.activities))
      ]

  module _ (loop : ℕ → WorkflowRuntime h → Waiting h.Object × WorkflowRuntime h)
      (loop-IsSound : (seq : ℕ) (rt : WorkflowRuntime h)
        → seq ≤ rt.activity_seq
        → IsSoundWhen strict rt
        → IsSoundWhen strict (loop seq rt).1) where
    after_backoff-IsSound :
        (seq : ℕ) (b : DoBackoff h.Object) (rt : WorkflowRuntime h)
        → IsSoundWhen strict rt
        → IsSoundWhen strict (after_backoff loop seq b rt).1
    unfolding after_backoff
    after_backoff-IsSound seq b rt s = go (reschedule seq b rt).0 refl
      where
        go :
            (r : Result h.Object ℕ)
            → (reschedule seq b rt).0 ≡ r
            → IsSoundWhen strict (after_backoff loop seq b rt).1
        go (ok n) p =
            rw (p, after_backoff)
              (loop-IsSound n _ (reschedule_issued seq n b rt p) (reschedule-IsSound seq b rt s))
        go (err e) p = rw (p, after_backoff) (reschedule-IsSound seq b rt s)

    after_sleep-IsSound :
        (seq : ℕ) (b : DoBackoff h.Object) (slept : Await h.Object (Unit {0}))
        (rt : WorkflowRuntime h)
        → IsSoundWhen strict rt
        → IsSoundWhen strict (after_sleep loop seq b slept rt).1
    unfolding after_sleep
    after_sleep-IsSound seq b (blocked wait) rt s = s
    after_sleep-IsSound seq b (done (err e)) rt s = s
    after_sleep-IsSound seq b (done (ok _)) rt s = after_backoff-IsSound seq b rt s

  pub workflow_wait_activity-IsSound :
      (fuel seq : ℕ) (rt : WorkflowRuntime h)
      → seq ≤ rt.activity_seq
      → IsSoundWhen strict rt
      → IsSoundWhen strict (workflow_wait_activity fuel seq rt).1
  unfolding workflow_wait_activity
  workflow_wait_activity-IsSound zero seq rt issued s = s
  workflow_wait_activity-IsSound (suc fuel) seq rt issued s =
      go (workflow_wait_activity-IsSound fuel) (Dict.get rt.completed_activities seq) refl
    where
      go :
          ((n : ℕ) (rt' : WorkflowRuntime h)
            → n ≤ rt'.activity_seq
            → IsSoundWhen strict rt'
            → IsSoundWhen strict (workflow_wait_activity fuel n rt').1)
          → (found : Option (Outcome h.Object)) → Dict.get rt.completed_activities seq ≡ found
          → IsSoundWhen strict (workflow_wait_activity (suc fuel) seq rt).1
      go ih none p = rw (p, workflow_wait_activity) (await_activity-IsSound seq rt issued p s)
      go ih (some (value v)) p = rw (p, workflow_wait_activity) s
      go ih (some (error e)) p = rw (p, workflow_wait_activity) s
      go ih (some (activity_backoff b)) p =
          rw (p, workflow_wait_activity)
            (after_sleep-IsSound (workflow_wait_activity fuel) ih seq b (begin_backoff b rt).0 _
              (begin_backoff-IsSound b rt s))

  finish_activity-IsSound :
      (fuel seq : ℕ) (x : Outcome h.Object) (rt : WorkflowRuntime h)
      → IsSoundWhen strict rt
      → IsSoundWhen strict (finish_activity fuel seq x rt).1
  unfolding finish_activity
  finish_activity-IsSound fuel seq (value v) rt s = s
  finish_activity-IsSound fuel seq (error e) rt s = s
  finish_activity-IsSound fuel seq (activity_backoff b) rt s =
      after_sleep-IsSound (workflow_wait_activity fuel) (workflow_wait_activity-IsSound fuel) seq b
        (begin_backoff b rt).0 _ (begin_backoff-IsSound b rt s)

  pub resume_wait_activity-IsSound :
      (fuel seq : ℕ) (how : Wake) (rt : WorkflowRuntime h)
      → IsSoundWhen strict rt
      → IsSoundWhen strict (resume_wait_activity fuel seq how rt).1
  unfolding resume_wait_activity
  resume_wait_activity-IsSound fuel seq scope_cancelled rt s = s
  resume_wait_activity-IsSound fuel seq event_set rt s =
      elim (Option-cases (Dict.get rt.completed_activities seq)) [
        | inl e ↦ rw (e, resume_wait_activity) s
        | inr (x, e) ↦ elim (Bool-cases rt.cancel_requested) [
          | inl c ↦
              rw (e, c, resume_wait_activity) (assumption (s, Wakes-remove _ seq _ _ s.activities))
          | inr c ↦
              rw (e, c, resume_wait_activity)
                (finish_activity-IsSound fuel seq x _
                  (assumption (s, Wakes-remove _ seq _ _ s.activities)))
        ]
      ]

  pub resume_backoff-IsSound :
      (fuel seq timer_seq : ℕ) (b : DoBackoff h.Object) (how : Wake) (rt : WorkflowRuntime h)
      → IsSoundWhen strict rt
      → IsSoundWhen strict (resume_backoff fuel seq timer_seq b how rt).1
  unfolding resume_backoff
  resume_backoff-IsSound fuel seq timer_seq b how rt s =
      after_sleep-IsSound (workflow_wait_activity fuel) (workflow_wait_activity-IsSound fuel) seq b
        (done (resume_sleep timer_seq how rt).0) _ (resume_sleep-IsSound timer_seq how rt s)
