-- ===== src/Clock.antt =====
-- temporalio_trio/worker/_clock.py: `WorkflowClock`. Times are numbers of nanoseconds; trio's deadline
-- is none for infinity.
use python_trio_sdk.Common.{
  ℕ, ◌≤◌, ◌≡◌, Option, none, some, List, [], ◌∷◌, inl, inr, ltb, leb, if◌then◌else◌, Bool-cases,
  arith, concat,
}
use python_trio_sdk.Host.{Host, Result, ok, err, value_error, runtime_error}

-- `_current_time_ns`
pub record WorkflowClock : Type 0 where
  pub current_time_ns : ℕ

module _ (h : Host) where
  unfoldable pub advance_to : ℕ → WorkflowClock → Result h.Object (Unit {0}) × WorkflowClock
  advance_to time_ns clock =
      if ltb time_ns clock.current_time_ns
      then (
        err (
            value_error (
              concat "Cannot move time backwards: current="
                (concat (h.str clock.current_time_ns) (concat ", requested=" (h.str time_ns))))),
        clock,
      )
      else (ok tt, record clock { current_time_ns = time_ns })

  unfoldable pub deadline_to_sleep_time : Option ℕ → WorkflowClock → Result h.Object (Option ℕ)
  deadline_to_sleep_time none clock = ok none
  deadline_to_sleep_time (some deadline) clock =
      if leb deadline clock.current_time_ns
      then ok (some 0)
      else err (
          runtime_error
            "trio.sleep() cannot be used inside a workflow. Use workflow.sleep() instead for deterministic execution.")

  -- Advances in sequence; an exception of one is caught, and the next goes on.
  unfoldable pub advance_all : List ℕ → WorkflowClock → WorkflowClock
  unfolding advance_to
  advance_all [] clock = clock
  advance_all (t ∷ ts) clock = advance_all ts (advance_to t clock).1

  -- Whatever times the clock is told, the time does not go back, and a deadline that has passed stays
  -- passed: the sleep for it is over at once.
  pub passed_deadlines_stay_passed :
      (times : List ℕ) (deadline : ℕ) (clock : WorkflowClock)
      → deadline ≤ clock.current_time_ns
      → (clock.current_time_ns ≤ (advance_all times clock).current_time_ns)
        × (deadline_to_sleep_time (some deadline) (advance_all times clock) ≡ ok (some 0))
  unfolding advance_all advance_to deadline_to_sleep_time
  passed_deadlines_stay_passed [] deadline clock p = (omega arith, ground (arith, p))
  passed_deadlines_stay_passed (t ∷ ts) deadline clock p =
      elim (Bool-cases (ltb t clock.current_time_ns)) [
        | inl q ↦ rw (q, advance_all, advance_to) (passed_deadlines_stay_passed ts deadline clock p)
        | inr q ↦
            let later =
              passed_deadlines_stay_passed ts deadline (record { current_time_ns = t })
                (ground (arith, p, q)) in
            rw (q, advance_all, advance_to) (ground (arith, later.0, q), later.1)
      ]
