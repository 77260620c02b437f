-- ===== src/Runtime/Sound/Children.antt =====
-- temporalio_trio/worker/_runtime.py: the invariant of a run and child workflows.
use python_trio_sdk.Common.{
  Bool, true, ℕ, ◌+◌, ◌≤◌, ◌≡◌, refl, inl, inr, arith, Option-cases, ℕ_eq, String, Bool-cases,
}
use python_trio_sdk.Common.Dict
use python_trio_sdk.Common.Dict.{Dict, get-put, get-remove}
use python_trio_sdk.Host.{Host, Result, ok, err}
use python_trio_sdk.Activation.{ChildWorkflowStartFailedJob}
use python_trio_sdk.Runtime.State.{
  WorkflowRuntime, Wake, event_set, scope_cancelled, Outcome, error, wake,
}
use python_trio_sdk.Runtime.Wakes.{
  Wakes-begin, Wakes-skip, Wakes-remove, Wakes-resolve, get-wake, wake_inv,
}
use python_trio_sdk.Runtime.Children.Requests.{StartChildWorkflowInput}
use python_trio_sdk.Runtime.Children.Start.{
  EncodedChild, encode_child, allocate_child, outbound_start_child_workflow, resume_child_start,
}
use python_trio_sdk.Runtime.Children.Result.{
  workflow_wait_child_workflow, resume_child, apply_child_workflow_started,
  apply_child_workflow_start_failed, apply_child_workflow_resolved, start_error,
}
use python_trio_sdk.Runtime.Sound.Invariant.{Starts, IsSoundWhen}

module _ {h : Host} {strict : Bool} {X : Type 0} where
  Starts-begin :
      (n : ℕ) (pending : Dict ℕ h.Event) (started : Dict ℕ String) (recorded : Dict ℕ X)
      → ((seq : ℕ) → Dict.has recorded seq ≡ true → seq ≤ n)
      → Starts h strict n pending started recorded
      → Starts h strict (n + 1) (Dict.put pending (n + 1) h.new_event) started recorded
  Starts-begin n pending started recorded issued w = record {
    recorded_woken = λ always seq e p q.
        ground (
          arith,
          get-put pending (n + 1) seq h.new_event,
          w.recorded_woken always seq e,
          issued seq,
        );
    started_woken = λ seq e p q. ground (
      arith,
      get-put pending (n + 1) seq h.new_event,
      w.started_woken seq e,
      w.started_issued seq,
    );
    woken_started = λ seq e p q.
        ground
          (arith, get-put pending (n + 1) seq h.new_event, w.woken_started seq e, h.is_set-new);
    started_issued = λ seq p. omega (arith, w.started_issued seq p);
    pending_issued =
        λ seq p. ground (arith, get-put pending (n + 1) seq h.new_event, w.pending_issued seq);
  }

  Starts-skip :
      (n : ℕ) (pending : Dict ℕ h.Event) (started : Dict ℕ String) (recorded : Dict ℕ X)
      → Starts h strict n pending started recorded
      → Starts h strict (n + 1) pending started recorded
  Starts-skip n pending started recorded w = record {
    recorded_woken = w.recorded_woken;
    started_woken = w.started_woken;
    woken_started = w.woken_started;
    started_issued = λ seq p. omega (arith, w.started_issued seq p);
    pending_issued = λ seq p. omega (arith, w.pending_issued seq p);
  }

  Starts-remove :
      (n seq : ℕ) (pending : Dict ℕ h.Event) (started : Dict ℕ String) (recorded : Dict ℕ X)
      → Starts h strict n pending started recorded
      → Starts h strict n (Dict.remove pending seq) started recorded
  Starts-remove n seq pending started recorded w = record {
    recorded_woken =
        λ always j e p q. ground (arith, get-remove pending seq j, w.recorded_woken always j e);
    started_woken = λ j e p q. ground (arith, get-remove pending seq j, w.started_woken j e);
    woken_started = λ j e p q. ground (arith, get-remove pending seq j, w.woken_started j e);
    started_issued = w.started_issued;
    pending_issued = λ j p. ground (arith, get-remove pending seq j, w.pending_issued j);
  }

  -- A child that starts.
  Starts-start :
      (n seq : ℕ) (run_id : String) (pending : Dict ℕ h.Event) (started : Dict ℕ String)
      (recorded : Dict ℕ X)
      → seq ≤ n
      → Starts h strict n pending started recorded
      → Starts h strict n (wake h seq pending) (Dict.put started seq run_id) recorded
  Starts-start n seq run_id pending started recorded issued w = record {
    recorded_woken =
        λ always j e p q. ground (arith, wake_inv h seq j pending e p, w.recorded_woken always j e);
    started_woken = λ j e p q.
        ground
          (arith, wake_inv h seq j pending e p, get-put started seq j run_id, w.started_woken j e);
    woken_started = λ j e p q.
        ground
          (arith, wake_inv h seq j pending e p, get-put started seq j run_id, w.woken_started j e);
    started_issued = λ j p. ground (arith, get-put started seq j run_id, w.started_issued j);
    pending_issued = λ j p. ground (arith, get-wake h seq j pending, w.pending_issued j);
  }

  -- A start that fails, with its outcome.
  Starts-fail :
      (n seq : ℕ) (x : X) (pending : Dict ℕ h.Event) (started : Dict ℕ String) (recorded : Dict ℕ X)
      → Starts h strict n pending started recorded
      → Starts h strict n (wake h seq pending) started (Dict.put recorded seq x)
  Starts-fail n seq x pending started recorded w = record {
    recorded_woken = λ always j e p q. ground (
      arith,
      wake_inv h seq j pending e p,
      get-put recorded seq j x,
      w.recorded_woken always j e,
    );
    started_woken = λ j e p q. ground (arith, wake_inv h seq j pending e p, w.started_woken j e);
    woken_started = λ j e p q.
        ground (arith, wake_inv h seq j pending e p, get-put recorded seq j x, w.woken_started j e);
    started_issued = w.started_issued;
    pending_issued = λ j p. ground (arith, get-wake h seq j pending, w.pending_issued j);
  }

  Starts-record :
      (n seq : ℕ) (x : X) (pending : Dict ℕ h.Event) (started : Dict ℕ String) (recorded : Dict ℕ X)
      → (strict ≡ true → Dict.has started seq ≡ true)
      → Starts h strict n pending started recorded
      → Starts h strict n pending started (Dict.put recorded seq x)
  Starts-record n seq x pending started recorded begun w = record {
    recorded_woken = λ always j e p q. ground (
      arith,
      get-put recorded seq j x,
      w.recorded_woken always j e,
      w.started_woken j e,
      begun always,
      ℕ_eq.same_iff seq j,
    );
    started_woken = w.started_woken;
    woken_started = λ j e p q. ground (arith, get-put recorded seq j x, w.woken_started j e);
    started_issued = w.started_issued;
    pending_issued = w.pending_issued;
  }

module _ {h : Host} {strict : Bool} where
  pub outbound_start_child_workflow-IsSound :
      (input : StartChildWorkflowInput h.Object) (rt : WorkflowRuntime h)
      → IsSoundWhen strict rt
      → IsSoundWhen strict (outbound_start_child_workflow input rt).1
  unfolding outbound_start_child_workflow
  outbound_start_child_workflow-IsSound input rt s =
      go (encode_child input (allocate_child input rt).1) refl
    where
      skipped : IsSoundWhen strict (allocate_child input rt).1
      skipped = assumption (s, Wakes-skip _ _ _ s.children, Starts-skip _ _ _ _ s.starts)

      go :
          (r : Result h.Object (EncodedChild h.Object))
          → encode_child input (allocate_child input rt).1 ≡ r
          → IsSoundWhen strict (outbound_start_child_workflow input rt).1
      go (err e) p = rw (p, outbound_start_child_workflow) skipped
      go (ok encoded) p =
          elim (Option-cases (Dict.get rt.started_children (rt.child_workflow_seq + 1))) [
            | inl q ↦
                rw (p, q, outbound_start_child_workflow)
                  (assumption (
                    s,
                    Wakes-begin _ _ _ s.children,
                    Starts-begin _ _ _ _ s.children.recorded_issued s.starts,
                  ))
            | inr (x, q) ↦ rw (p, q, outbound_start_child_workflow) skipped
          ]

  pub resume_child_start-IsSound :
      (seq : ℕ) (id : String) (how : Wake) (rt : WorkflowRuntime h)
      → IsSoundWhen strict rt
      → IsSoundWhen strict (resume_child_start seq id how rt).1
  unfolding resume_child_start
  resume_child_start-IsSound seq id scope_cancelled rt s = assumption s
  resume_child_start-IsSound seq id event_set rt s =
      elim (Option-cases (Dict.get rt.started_children seq)) [
        | inl e ↦ rw (e, resume_child_start) s
        | inr (x, e) ↦ elim (Option-cases (Dict.get rt.pending_child_starts seq)) [
          | inl p ↦ rw (e, p, resume_child_start) s
          | inr (y, p) ↦
              rw (e, p, resume_child_start) (assumption (s, Starts-remove _ seq _ _ _ s.starts))
        ]
      ]

  pub workflow_wait_child_workflow-IsSound :
      (seq : ℕ) (rt : WorkflowRuntime h)
      → IsSoundWhen strict rt
      → IsSoundWhen strict (workflow_wait_child_workflow seq rt).1
  unfolding workflow_wait_child_workflow
  workflow_wait_child_workflow-IsSound seq rt s =
      elim (Option-cases (Dict.get rt.completed_children seq)) [
        | inl e ↦ elim (Bool-cases (Dict.has rt.pending_children seq)) [
          | inl p ↦ rw (e, p, workflow_wait_child_workflow) (assumption s)
          | inr p ↦ rw (e, p, workflow_wait_child_workflow) s
        ]
        | inr (x, e) ↦ rw (e, workflow_wait_child_workflow) s
      ]

  pub resume_child-IsSound :
      (seq : ℕ) (how : Wake) (rt : WorkflowRuntime h)
      → IsSoundWhen strict rt
      → IsSoundWhen strict (resume_child seq how rt).1
  unfolding resume_child
  resume_child-IsSound seq scope_cancelled rt s = assumption s
  resume_child-IsSound seq event_set rt s =
      elim (Option-cases (Dict.get rt.completed_children seq)) [
        | inl e ↦ rw (e, resume_child) s
        | inr (x, e) ↦ elim (Bool-cases (Dict.has rt.pending_children seq)) [
          | inl p ↦ rw (e, p, resume_child) (assumption (s, Wakes-remove _ seq _ _ s.children))
          | inr p ↦ rw (e, p, resume_child) s
        ]
      ]

  pub apply_child_workflow_started-IsSound :
      (seq : ℕ) (run_id : String) (rt : WorkflowRuntime h)
      → seq ≤ rt.child_workflow_seq
      → IsSoundWhen strict rt
      → IsSoundWhen strict (apply_child_workflow_started seq run_id rt)
  unfolding apply_child_workflow_started
  apply_child_workflow_started-IsSound seq run_id rt issued s =
      assumption (s, Starts-start _ seq run_id _ _ _ issued s.starts)

  pub apply_child_workflow_start_failed-IsSound :
      (job : ChildWorkflowStartFailedJob h.Object) (rt : WorkflowRuntime h)
      → job.seq ≤ rt.child_workflow_seq
      → IsSoundWhen strict rt
      → IsSoundWhen strict (apply_child_workflow_start_failed job rt)
  unfolding apply_child_workflow_start_failed
  apply_child_workflow_start_failed-IsSound job rt issued s =
      let failure : Outcome h.Object =
        error (start_error h job.cause job.workflow_id job.workflow_type) in
      assumption (
        s,
        Starts-fail _ job.seq failure _ _ _ s.starts,
        Wakes-resolve _ job.seq failure _ _ issued s.children,
      )

  pub apply_child_workflow_resolved-IsSound :
      (seq : ℕ) (outcome : Outcome h.Object) (rt : WorkflowRuntime h)
      → seq ≤ rt.child_workflow_seq
      → (strict ≡ true → Dict.has rt.started_children seq ≡ true)
      → IsSoundWhen strict rt
      → IsSoundWhen strict (apply_child_workflow_resolved seq outcome rt)
  unfolding apply_child_workflow_resolved
  apply_child_workflow_resolved-IsSound seq outcome rt issued begun s = assumption (
    s,
    Starts-record _ seq outcome _ _ _ begun s.starts,
    Wakes-resolve _ seq outcome _ _ issued s.children,
  )
