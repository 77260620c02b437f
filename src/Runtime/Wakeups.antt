-- ===== src/Runtime/Wakeups.antt =====
-- temporalio_trio/worker/_runtime.py: coroutines that trio resumes.
use python_trio_sdk.Common.{
  ℕ, ◌≡◌, true, none, some, String, if◌then◌else◌, ℕ_eq, arith, Option-cases, inl, inr,
}
use python_trio_sdk.Common.Dict
use python_trio_sdk.Common.Dict.{get-put, get-remove}
use python_trio_sdk.Host.{Host, ok, err, cancelled, key_error}
use python_trio_sdk.Activation.{ChildWorkflowStartFailedJob}
use python_trio_sdk.Runtime.State.{WorkflowRuntime, Outcome, raise_or_return, event_set}
use python_trio_sdk.Runtime.Wakes.{Wakes, get-wake}
use python_trio_sdk.Runtime.Timers.{resume_sleep}
use python_trio_sdk.Runtime.Activities.Execute.{resume_execute}
use python_trio_sdk.Runtime.Children.Start.{resume_child_start}
use python_trio_sdk.Runtime.Children.Result.{resume_child, apply_child_workflow_start_failed}
use python_trio_sdk.Runtime.Sound.Invariant.{IsSound}

module _ {h : Host} where
  -- A set event has its outcome.
  recorded :
      {X : Type 0} (counter : ℕ) (pending : Dict.Dict ℕ h.Event) (outcomes : Dict.Dict ℕ X)
      (seq : ℕ) (e : h.Event)
      → Wakes h counter pending outcomes
      → Dict.get pending seq ≡ some e
      → h.is_set e ≡ true
      → (x : X) × (Dict.get outcomes seq ≡ some x)
  recorded counter pending outcomes seq e w p q = elim (Option-cases (Dict.get outcomes seq)) [
    | inl n ↦ absurd (ground (arith, n, w.woken seq e p))
    | inr found ↦ found
  ]

  -- In a sound state, when the event of a pending activity is set, its outcome is recorded; the call
  -- of execute_activity that waits for it returns or raises exactly that outcome, or raises
  -- trio.Cancelled where cancellation was requested, and its entry of pending_activities is gone.
  pub execute_resumes_with_outcome :
      (seq : ℕ) (e : h.Event) (rt : WorkflowRuntime h)
      → IsSound rt
      → Dict.get rt.pending_activities seq ≡ some e
      → h.is_set e ≡ true
      → (x : Outcome h.Object) × (Dict.get rt.completed_activities seq ≡ some x)
        × ((resume_execute seq event_set rt).0
            ≡ (if rt.cancel_requested then err cancelled else raise_or_return x))
        × (Dict.get (resume_execute seq event_set rt).1.pending_activities seq ≡ none)
  unfolding resume_execute
  execute_resumes_with_outcome seq e rt s p q =
      let (x, found) = recorded _ _ _ seq e s.activities p q in
      (
        x,
        found,
        ground (arith, found, p),
        ground (arith, found, p, get-remove rt.pending_activities seq seq),
      )

  -- The same of a sleep: where its event is set, the timer has fired, the sleep returns (or raises
  -- trio.Cancelled where cancellation was requested), and its entry of pending_timers is gone.
  sleep_resumes_after_firing :
      (seq : ℕ) (e : h.Event) (rt : WorkflowRuntime h)
      → IsSound rt
      → Dict.get rt.pending_timers seq ≡ some e
      → h.is_set e ≡ true
      → (Dict.has rt.fired_timers seq ≡ true)
        × ((resume_sleep seq event_set rt).0
            ≡ (if rt.cancel_requested then err cancelled else ok tt))
        × (Dict.get (resume_sleep seq event_set rt).1.pending_timers seq ≡ none)
  unfolding resume_sleep
  sleep_resumes_after_firing seq e rt s p q =
      let (x, found) = recorded _ _ _ seq e s.timers p q in
      (
        ground (arith, found),
        ground (arith, p),
        ground (arith, p, get-remove rt.pending_timers seq seq),
      )

  -- The same of a wait for a child workflow, which has no check of the cancellation flag.
  pub child_resumes_with_outcome :
      (seq : ℕ) (e : h.Event) (rt : WorkflowRuntime h)
      → IsSound rt
      → Dict.get rt.pending_children seq ≡ some e
      → h.is_set e ≡ true
      → (x : Outcome h.Object) × (Dict.get rt.completed_children seq ≡ some x)
        × ((resume_child seq event_set rt).0 ≡ raise_or_return x)
        × (Dict.get (resume_child seq event_set rt).1.pending_children seq ≡ none)
  unfolding resume_child
  child_resumes_with_outcome seq e rt s p q =
      let (x, found) = recorded _ _ _ seq e s.children p q in
      (
        x,
        found,
        ground (arith, found, p),
        ground (arith, found, p, get-remove rt.pending_children seq seq),
      )

  -- A start of a child workflow that fails, for a child that has not started, wakes the waiter of the
  -- start if there is one, but the waiter raises KeyError and not the recorded failure.
  pub start_failure_raises_key_error :
      (job : ChildWorkflowStartFailedJob h.Object) (id : String) (e : h.Event)
      (rt : WorkflowRuntime h)
      → Dict.get rt.started_children job.seq ≡ none
      → Dict.get rt.pending_child_starts job.seq ≡ some e
      → (Dict.get (apply_child_workflow_start_failed job rt).pending_child_starts job.seq
          ≡ some (h.set e))
        × ((resume_child_start job.seq id event_set (apply_child_workflow_start_failed job rt)).0
            ≡ err (key_error job.seq))
  unfolding resume_child_start apply_child_workflow_start_failed
  start_failure_raises_key_error job id e rt n p =
      (ground (arith, p, get-wake h job.seq job.seq rt.pending_child_starts), ground (arith, n))
