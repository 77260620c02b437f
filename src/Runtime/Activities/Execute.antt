-- ===== src/Runtime/Activities/Execute.antt =====
-- temporalio_trio/worker/_runtime.py: `execute_activity` and `execute_local_activity`.
use python_trio_sdk.Common.{
  ℕ, ◌+◌, false, String, Option, none, some, List, [], if◌then◌else◌, or_else, ℕ_eq, string_eq,
  ◌==◌,
}
use python_trio_sdk.Common.Dict
use python_trio_sdk.Host.{Host, Result, err, cancelled, key_error}
use python_trio_sdk.Activation.{Command}
use python_trio_sdk.Runtime.State.{
  WorkflowRuntime, Outcome, raise_or_return, activity, Await, done, blocked, Wake, event_set,
  scope_cancelled, emit, notify_suspend,
}

-- `activity_id if activity_id else str(seq)`: an empty string counts as none
abbrev pub given_id : Option String → String → String
given_id none default = default
given_id (some id) default = if id == "" then default else id

module _ {h : Host} where
  unfoldable pub next_activity_seq : WorkflowRuntime h → ℕ × WorkflowRuntime h
  next_activity_seq rt = (rt.activity_seq + 1, record rt { activity_seq = rt.activity_seq + 1 })

  -- The common course: return what is recorded, or emit the command and wait.
  unfoldable pub begin_activity :
      ℕ
      → Command h.Object
      → WorkflowRuntime h
      → Await h.Object (Outcome h.Object) × WorkflowRuntime h
  begin_activity seq command rt =
      let waiting = record rt {
        pending_activities = Dict.put rt.pending_activities seq h.new_event;
      } in
      elim (Dict.get rt.completed_activities seq) [
        | some result ↦ (done (raise_or_return result), rt)
        | none ↦ (blocked (activity seq), notify_suspend (emit command waiting))
      ]

  unfoldable pub execute_activity :
      (activity_type : String) (args : List h.Object) (task_queue activity_id : Option String)
      → (schedule_to_close schedule_to_start start_to_close heartbeat : Option ℕ)
      → (retry_policy : Option h.Object) → (cancellation_type : ℕ) → WorkflowRuntime h
      → Await h.Object (Outcome h.Object) × WorkflowRuntime h
  unfolding next_activity_seq begin_activity
  execute_activity activity_type args queue id close start run beat policy cancellation rt =
      let (seq, rt') = next_activity_seq rt in
      begin_activity seq
        (Command.schedule_activity (record {
          seq = seq;
          activity_id = given_id id (h.str seq);
          activity_type = activity_type;
          args = args;
          task_queue = queue;
          schedule_to_close_timeout = close;
          schedule_to_start_timeout = start;
          start_to_close_timeout = run;
          heartbeat_timeout = beat;
          retry_policy = policy;
          cancellation_type = cancellation;
          headers = [];
          do_not_eagerly_execute = false;
          versioning_intent = none;
          summary_payload = none;
          priority = none;
        }))
        rt'

  unfoldable pub execute_local_activity :
      (activity_type : String) (args : List h.Object) (activity_id : Option String)
      → (schedule_to_close schedule_to_start start_to_close : Option ℕ)
      → (retry_policy : Option h.Object) → (local_retry_threshold : Option ℕ)
      → (cancellation_type : ℕ) → WorkflowRuntime h
      → Await h.Object (Outcome h.Object) × WorkflowRuntime h
  unfolding next_activity_seq begin_activity
  execute_local_activity activity_type args id close start run policy threshold cancellation rt =
      let (seq, rt') = next_activity_seq rt in
      begin_activity seq
        (Command.schedule_local_activity (record {
          seq = seq;
          activity_id = given_id id (h.str seq);
          activity_type = activity_type;
          args = args;
          schedule_to_close_timeout = close;
          schedule_to_start_timeout = start;
          start_to_close_timeout = run;
          retry_policy = policy;
          local_retry_threshold = threshold;
          cancellation_type = cancellation;
          headers = [];
          summary_payload = none;
          attempt = none;
          original_schedule_time = none;
        }))
        rt'

  -- workflow_execute_activity, for an activity given by its name
  unfoldable pub workflow_execute_activity :
      (activity_type : String) (args : List h.Object) (task_queue activity_id : Option String)
      → (schedule_to_close schedule_to_start start_to_close heartbeat : Option ℕ)
      → (retry_policy : Option h.Object) → (cancellation_type : ℕ) → WorkflowRuntime h
      → Await h.Object (Outcome h.Object) × WorkflowRuntime h
  unfolding execute_activity
  workflow_execute_activity activity_type args queue id close start run beat policy cancellation
        rt =
      execute_activity activity_type args (some (or_else queue rt.task_queue)) id close start run
        beat policy cancellation rt

  -- execute_activity and execute_local_activity behind `await event.wait()`
  unfoldable pub resume_execute :
      ℕ → Wake → WorkflowRuntime h → Result h.Object (Outcome h.Object) × WorkflowRuntime h
  resume_execute seq scope_cancelled rt = (err cancelled, rt)
  resume_execute seq event_set rt =
      let rt' = record rt { pending_activities = Dict.remove rt.pending_activities seq } in
      elim (Dict.get rt.completed_activities seq) [
        | none ↦ (err (key_error seq), rt)
        | some result ↦
            if Dict.has rt.pending_activities seq
            then (if rt.cancel_requested then err cancelled else raise_or_return result, rt')
            else (err (key_error seq), rt)
      ]
