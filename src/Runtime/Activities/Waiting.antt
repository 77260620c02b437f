-- ===== src/Runtime/Activities/Waiting.antt =====
-- temporalio_trio/worker/_runtime.py: `workflow_wait_activity` and `_handle_activity_backoff`.
use python_trio_sdk.Common.{
  ℕ, zero, suc, concat, ◌+◌, ◌*◌, Option, none, some, List, [], ◌∷◌, if◌then◌else◌, ltb, nat_eq,
  ℕ_eq,
}
use python_trio_sdk.Common.Dict
use python_trio_sdk.Common.Dict.{Dict}
use python_trio_sdk.Host.{Host, Result, ok, err, cancelled, key_error, runtime_error}
use python_trio_sdk.Activation.{Command, DoBackoff, ScheduleLocalActivityCommand}
use python_trio_sdk.Runtime.State.{
  WorkflowRuntime, ActivityInput, Wait, Outcome, value, error, activity_backoff, Await, done,
  blocked, Wake, event_set, scope_cancelled, emit, notify_suspend,
}
use python_trio_sdk.Runtime.Timers.{workflow_sleep, resume_sleep}
use python_trio_sdk.Runtime.Activities.Execute.{next_activity_seq}

-- `for cmd in self.commands: if isinstance(cmd, ScheduleLocalActivityCommand) and cmd.seq == old_seq`
unfoldable pub find_local :
    {Object : Type 0} → ℕ → List (Command Object) → Option (ScheduleLocalActivityCommand Object)
find_local old_seq [] = none
find_local old_seq (Command.schedule_local_activity c ∷ rest) =
    if nat_eq c.seq old_seq then some c else find_local old_seq rest
find_local old_seq (_ ∷ rest) = find_local old_seq rest

-- Where the coroutine of `workflow_wait_activity` stands.
pub data Waiting (Object : Type 0) : Type 0 where
  finished : Result Object (Outcome Object) → Waiting Object
  at_event : (seq : ℕ) → Waiting Object
  at_backoff : (old_seq : ℕ) → Wait → DoBackoff Object → Waiting Object
  out_of_fuel : Waiting Object

-- `backoff_duration.seconds + backoff_duration.nanos / 1e9` in nanoseconds, for the test against 0
abbrev pub backoff_ns : {Object : Type 0} → DoBackoff Object → ℕ
backoff_ns b = b.seconds * 1000000000 + b.nanos

-- the new command: the old one but for its number, attempt and original schedule time
abbrev pub again :
    {Object : Type 0} → ℕ → DoBackoff Object → ScheduleLocalActivityCommand Object → Command Object
again new_seq b c = Command.schedule_local_activity (record c {
  seq = new_seq;
  attempt = some b.attempt;
  original_schedule_time = some b.original_schedule_time;
})

-- `old_input = inputs.pop(old_seq, None)`, stored again under the new number
abbrev pub transfer :
    {Object : Type 0} → ℕ → ℕ → Dict ℕ (ActivityInput Object) → Dict ℕ (ActivityInput Object)
transfer old_seq new_seq inputs = elim (Dict.get inputs old_seq) [
  | none ↦ Dict.remove inputs old_seq
  | some input ↦ Dict.put (Dict.remove inputs old_seq) new_seq input
]

module _ {h : Host} where
  -- `_handle_activity_backoff` from the search for the original command on
  unfoldable pub reschedule :
      ℕ → DoBackoff h.Object → WorkflowRuntime h → Result h.Object ℕ × WorkflowRuntime h
  unfolding next_activity_seq find_local
  reschedule old_seq b rt =
      let (new_seq, rt') = next_activity_seq rt in
      elim (find_local old_seq rt.commands) [
        | none ↦ (
          err (
              runtime_error (
                concat "Failed finding original local activity command for sequence "
                  (h.str old_seq))),
          rt,
        )
        | some c ↦ (
          ok new_seq,
          notify_suspend (record (emit (again new_seq b c) rt') {
            activity_inputs = transfer old_seq new_seq rt'.activity_inputs;
            pending_activities = Dict.put rt'.pending_activities new_seq h.new_event;
          }),
        )
      ]

  -- `_handle_activity_backoff` up to its sleep: the timer that it waits for, if it waits
  unfoldable pub begin_backoff :
      DoBackoff h.Object → WorkflowRuntime h → Await h.Object (Unit {0}) × WorkflowRuntime h
  unfolding workflow_sleep
  begin_backoff b rt =
      if ltb 0 (backoff_ns b)
      then workflow_sleep (h.whole_ms b.seconds b.nanos) none rt
      else (done (ok tt), rt)

  -- The loop's body behind a sleep that has ended. `loop` is the loop with the new number.
  unfoldable pub after_backoff :
      (ℕ → WorkflowRuntime h → Waiting h.Object × WorkflowRuntime h)
      → ℕ
      → DoBackoff h.Object
      → WorkflowRuntime h
      → Waiting h.Object × WorkflowRuntime h
  after_backoff loop seq b rt =
      let (again_seq, rt') = reschedule seq b rt in
      elim again_seq [ err e ↦ (finished (err e), rt') | ok new_seq ↦ loop new_seq rt' ]

  -- The loop's body from the sleep on.
  unfoldable pub after_sleep :
      (ℕ → WorkflowRuntime h → Waiting h.Object × WorkflowRuntime h)
      → ℕ
      → DoBackoff h.Object
      → Await h.Object (Unit {0})
      → WorkflowRuntime h
      → Waiting h.Object × WorkflowRuntime h
  unfolding after_backoff
  after_sleep loop seq b (blocked wait) rt = (at_backoff seq wait b, rt)
  after_sleep loop seq b (done (err e)) rt = (finished (err e), rt)
  after_sleep loop seq b (done (ok _)) rt = after_backoff loop seq b rt

  -- `event = self.pending_activities.get(seq)`, with a new event where there is none
  unfoldable pub await_activity : ℕ → WorkflowRuntime h → Waiting h.Object × WorkflowRuntime h
  await_activity seq rt = (
    at_event seq,
    notify_suspend (record rt {
      pending_activities =
          if Dict.has rt.pending_activities seq
          then rt.pending_activities
          else Dict.put rt.pending_activities seq h.new_event;
    }),
  )

  -- The `while True` loop, from its head.
  unfoldable pub workflow_wait_activity :
      ℕ → ℕ → WorkflowRuntime h → Waiting h.Object × WorkflowRuntime h
  unfolding await_activity after_sleep begin_backoff
  workflow_wait_activity zero seq rt = (out_of_fuel, rt)
  workflow_wait_activity (suc fuel) seq rt = elim (Dict.get rt.completed_activities seq) [
    | none ↦ await_activity seq rt
    | some (value v) ↦ (finished (ok (value v)), rt)
    | some (error e) ↦ (finished (err e), rt)
    | some (activity_backoff b) ↦
        let (slept, rt') = begin_backoff b rt in
        after_sleep (workflow_wait_activity fuel) seq b slept rt'
  ]

  -- What the loop does with a result behind its event.
  unfoldable pub finish_activity :
      ℕ → ℕ → Outcome h.Object → WorkflowRuntime h → Waiting h.Object × WorkflowRuntime h
  unfolding begin_backoff after_sleep
  finish_activity fuel seq (value v) rt = (finished (ok (value v)), rt)
  finish_activity fuel seq (error e) rt = (finished (err e), rt)
  finish_activity fuel seq (activity_backoff b) rt =
      let (slept, rt') = begin_backoff b rt in
      after_sleep (workflow_wait_activity fuel) seq b slept rt'

  -- behind `await event.wait()`
  unfoldable pub resume_wait_activity :
      ℕ → ℕ → Wake → WorkflowRuntime h → Waiting h.Object × WorkflowRuntime h
  unfolding finish_activity
  resume_wait_activity fuel seq scope_cancelled rt = (finished (err cancelled), rt)
  resume_wait_activity fuel seq event_set rt =
      let rt' = record rt { pending_activities = Dict.remove rt.pending_activities seq } in
      elim (Dict.get rt.completed_activities seq) [
        | none ↦ (finished (err (key_error seq)), rt)
        | some result ↦
            if rt.cancel_requested
            then (finished (err cancelled), rt')
            else finish_activity fuel seq result rt'
      ]

  -- behind the sleep of `_handle_activity_backoff`
  unfoldable pub resume_backoff :
      ℕ
      → ℕ
      → ℕ
      → DoBackoff h.Object
      → Wake
      → WorkflowRuntime h
      → Waiting h.Object × WorkflowRuntime h
  unfolding after_sleep
  resume_backoff fuel seq timer_seq b how rt =
      let (slept, rt') = resume_sleep timer_seq how rt in
      after_sleep (workflow_wait_activity fuel) seq b (done slept) rt'
