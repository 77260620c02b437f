-- ===== src/Runtime/Timers.antt =====
-- temporalio_trio/worker/_runtime.py: timers.
use python_trio_sdk.Common.{ℕ, ◌+◌, String, Option, none, some, if◌then◌else◌, ℕ_eq}
use python_trio_sdk.Common.Dict
use python_trio_sdk.Host.{Host, Result, ok, err, cancelled, key_error}
use python_trio_sdk.Activation.{Command}
use python_trio_sdk.Runtime.State.{
  WorkflowRuntime, timer, Await, done, blocked, Wake, event_set, scope_cancelled, emit,
  notify_suspend, wake,
}

module _ {h : Host} where
  unfoldable pub next_timer_seq : WorkflowRuntime h → ℕ × WorkflowRuntime h
  next_timer_seq rt = (rt.timer_seq + 1, record rt { timer_seq = rt.timer_seq + 1 })

  -- workflow_sleep from the event on: a new timer. `duration_ms` is `int(duration * 1000)`, which the
  -- code computes in floating point; durations that are not negative.
  unfoldable pub start_timer :
      ℕ → ℕ → Option String → WorkflowRuntime h → Await h.Object (Unit {0}) × WorkflowRuntime h
  start_timer seq duration_ms summary rt =
      let waiting = record rt { pending_timers = Dict.put rt.pending_timers seq h.new_event } in
      let command =
        Command.start_timer
          (record { timer_id = seq; duration_ms = duration_ms; summary = summary }) in
      (blocked (timer seq), notify_suspend (emit command waiting))

  unfoldable pub workflow_sleep :
      ℕ → Option String → WorkflowRuntime h → Await h.Object (Unit {0}) × WorkflowRuntime h
  unfolding next_timer_seq start_timer
  workflow_sleep duration_ms summary rt =
      let (seq, rt') = next_timer_seq rt in
      elim (Dict.get rt'.fired_timers seq) [
        | some fire_time ↦ (done (ok tt), record rt' { time_ns = fire_time })
        | none ↦ start_timer seq duration_ms summary rt'
      ]

  -- workflow_sleep behind `await event.wait()`
  unfoldable pub resume_sleep :
      ℕ → Wake → WorkflowRuntime h → Result h.Object (Unit {0}) × WorkflowRuntime h
  resume_sleep seq scope_cancelled rt = (err cancelled, rt)
  resume_sleep seq event_set rt =
      let rt' = record rt { pending_timers = Dict.remove rt.pending_timers seq } in
      elim (Dict.get rt.pending_timers seq) [
        | none ↦ (err (key_error seq), rt)
        | some _ ↦ (if rt.cancel_requested then err cancelled else ok tt, rt')
      ]

  unfoldable pub apply_timer_fired : ℕ → ℕ → WorkflowRuntime h → WorkflowRuntime h
  apply_timer_fired seq fire_time_ns rt = record rt {
    fired_timers = Dict.put rt.fired_timers seq fire_time_ns;
    time_ns = fire_time_ns;
    pending_timers = wake h seq rt.pending_timers;
  }
