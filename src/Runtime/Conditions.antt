-- ===== src/Runtime/Conditions.antt =====
-- temporalio_trio/worker/_runtime.py: `workflow_wait_condition`, its notification, and cancellation.
use python_trio_sdk.Common.{
  ℕ, ◌+◌, Bool, true, false, Option, none, some, List, [], ◌∷◌, ◌++◌, if◌then◌else◌, leb, nat_eq,
}
use python_trio_sdk.Host.{Host, ok, err, cancelled, timeout_error}
use python_trio_sdk.Runtime.State.{
  WorkflowRuntime, Nursery, condition, Await, done, blocked, Wake, event_set, scope_cancelled,
  notify_suspend,
}

-- `if event in waiters: waiters.remove(event)`: the first one
unfoldable pub discard : ℕ → List ℕ → List ℕ
discard event [] = []
discard event (w ∷ waiters) = if nat_eq w event then waiters else w ∷ discard event waiters

-- A number of seconds in floating point: zero, or positive or negative with what
-- `int(timeout * 1_000_000_000)` gives, or minus it.
pub data Timeout : Type 0 where
  zero_timeout : Timeout
  positive negative : (ns : ℕ) → Timeout

-- `timeout_ns = int(timeout * 1_000_000_000) if timeout else None`
abbrev pub deadline : Option Timeout → Option Timeout
deadline none = none
deadline (some zero_timeout) = none
deadline (some (positive ns)) = some (positive ns)
deadline (some (negative ns)) = some (negative ns)

-- `timeout_ns is not None and elapsed_ns >= timeout_ns`, where elapsed_ns is `now - start`
abbrev pub is_late : Option Timeout → (start now : ℕ) → Bool
is_late none start now = false
is_late (some zero_timeout) start now = leb start now
is_late (some (positive ns)) start now = leb (start + ns) now
is_late (some (negative ns)) start now = leb start (now + ns)

-- `if nursery is not None: nursery.cancel_scope.cancel()`
abbrev pub cancel_scope : {Object : Type 0} → Option (Nursery Object) → Option (Nursery Object)
cancel_scope none = none
cancel_scope (some nursery) = some (record nursery { cancel_called = true })

module _ {h : Host} where
  unfoldable pub notify_condition_waiters : WorkflowRuntime h → WorkflowRuntime h
  notify_condition_waiters rt = record rt {
    set_conditions = rt.condition_waiters ++ rt.set_conditions;
    condition_waiters = [];
  }

  -- One round of the loop up to `await wait_event.wait()`. `holds` is the value of `fn()`.
  unfoldable pub register_condition :
      WorkflowRuntime h → Await h.Object (Unit {0}) × WorkflowRuntime h
  register_condition rt =
      let event = rt.next_condition in
      (
        blocked (condition event),
        notify_suspend (record rt {
          condition_waiters = rt.condition_waiters ++ event ∷ [];
          next_condition = event + 1;
        }),
      )

  -- `fn` reads the workflow object, which the runtime does not hold: the two calls of `fn()` before the
  -- first wait see the same state, and their common value is `holds`.
  unfoldable pub workflow_wait_condition :
      Bool → WorkflowRuntime h → Await h.Object (Unit {0}) × WorkflowRuntime h
  unfolding register_condition
  workflow_wait_condition holds rt = if holds then (done (ok tt), rt) else register_condition rt

  -- Behind the `await`: the `finally` block, the timeout, and the head of the loop again.
  unfoldable pub resume_condition :
      (event start_time_ns : ℕ)
      → (timeout : Option Timeout) → (holds : Bool) → Wake
      → WorkflowRuntime h
      → Await h.Object (Unit {0}) × WorkflowRuntime h
  unfolding register_condition
  resume_condition event start_time_ns timeout holds how rt =
      let rt' = record rt { condition_waiters = discard event rt.condition_waiters } in
      elim how [
        | scope_cancelled ↦ (done (err cancelled), rt')
        | event_set ↦
            if is_late (deadline timeout) start_time_ns rt.time_ns
            then (done (err timeout_error), rt')
            else if holds
            then (done (ok tt), rt')
            else register_condition rt'
      ]

  unfoldable pub apply_cancel_workflow : WorkflowRuntime h → WorkflowRuntime h
  apply_cancel_workflow rt = record rt {
    cancel_requested = true;
    nursery = cancel_scope rt.nursery;
  }
