-- ===== src/Runtime/Activities/Schedule.antt =====
-- temporalio_trio/worker/_runtime.py: `_outbound_schedule_activity` and
-- `_outbound_schedule_local_activity`, the last step of `start_activity` and `start_local_activity`.
use python_trio_sdk.Common.{
  ℕ, ◌&&◌, Bool, true, false, String, Option, none, some, List, [], ◌∷◌, if◌then◌else◌, or_else,
  ℕ_eq, string_eq, ◌==◌,
}
use python_trio_sdk.Common.Dict
use python_trio_sdk.Host.{
  Host, Result, ok, err, SerializationContext, activity_context, value_error,
}
use python_trio_sdk.Activation.{Command}
use python_trio_sdk.Runtime.State.{WorkflowRuntime, ActivityInput, emit}
use python_trio_sdk.Runtime.Activities.Requests.{
  StartActivityInput, StartLocalActivityInput, is_falsy, remembered, remembered_local,
}
use python_trio_sdk.Runtime.Activities.Execute.{given_id, next_activity_seq}

-- `input.activity_id or None`
abbrev pub non_empty : Option String → Option String
non_empty none = none
non_empty (some id) = if id == "" then none else some id

-- An ActivityHandle, by its fields.
pub record ActivityHandle : Type 0 where
  pub seq : ℕ
  pub is_local : Bool

module _ (h : Host) where
  -- `converter.to_payloads(list(args)) if args else []`
  abbrev pub encode_args : SerializationContext → List h.Object → Result h.Object (List h.Object)
  encode_args c [] = ok []
  encode_args c (a ∷ rest) = h.to_payloads c (a ∷ rest)

  -- `converter.to_payload(text) if text else None`
  abbrev pub encode_text : SerializationContext → Option String → Result h.Object (Option h.Object)
  encode_text c none = ok none
  encode_text c (some text) =
      if text == ""
      then ok none
      else elim (h.to_payload c text) [ err e ↦ err e | ok payload ↦ ok (some payload) ]

module _ {h : Host} where
  -- The part that allocates the number, makes the event and stores the input.
  unfoldable pub register_activity :
      ActivityInput h.Object
      → (ℕ → Command h.Object)
      → WorkflowRuntime h
      → Result h.Object ActivityHandle × WorkflowRuntime h
  unfolding next_activity_seq
  register_activity input command rt =
      let (seq, rt') = next_activity_seq rt in
      let pending =
        if Dict.has rt'.completed_activities seq
        then rt'.pending_activities
        else Dict.put rt'.pending_activities seq h.new_event in
      let rt'' = record rt' {
        pending_activities = pending;
        activity_inputs = Dict.put rt'.activity_inputs seq input;
      } in
      (ok (record { seq = seq; is_local = input.is_local }), emit (command seq) rt'')

  -- The common course: the check of the timeouts, the encodings and the registration.
  unfoldable pub schedule_encoded :
      (untimed : Bool)
      → Result h.Object (List h.Object)
      → Result h.Object (Option h.Object)
      → ActivityInput h.Object
      → (List h.Object → Option h.Object → ℕ → Command h.Object)
      → WorkflowRuntime h
      → Result h.Object ActivityHandle × WorkflowRuntime h
  unfolding register_activity
  schedule_encoded true args summary input command rt = (
    err (value_error "Activity must have start_to_close_timeout or schedule_to_close_timeout"),
    rt,
  )
  schedule_encoded false (err e) summary input command rt = (err e, rt)
  schedule_encoded false (ok args) (err e) input command rt = (err e, rt)
  schedule_encoded false (ok args) (ok summary) input command rt =
      register_activity input (command args summary) rt

  unfoldable pub outbound_schedule_activity :
      StartActivityInput h.Object
      → WorkflowRuntime h
      → Result h.Object ActivityHandle × WorkflowRuntime h
  unfolding schedule_encoded
  outbound_schedule_activity input rt =
      let queue = or_else input.task_queue rt.task_queue in
      let context =
        activity_context rt.namespace rt.workflow_id rt.workflow_type input.activity
          (non_empty input.activity_id) queue false in
      let command = λ (args : List h.Object) (summary : Option h.Object) (seq : ℕ).
        Command.schedule_activity (record {
          seq = seq;
          activity_id = given_id input.activity_id (h.str seq);
          activity_type = input.activity;
          args = args;
          task_queue = some queue;
          schedule_to_close_timeout = input.schedule_to_close_timeout;
          schedule_to_start_timeout = input.schedule_to_start_timeout;
          start_to_close_timeout = input.start_to_close_timeout;
          heartbeat_timeout = input.heartbeat_timeout;
          retry_policy = input.retry_policy;
          cancellation_type = input.cancellation_type;
          headers = input.headers;
          do_not_eagerly_execute = input.disable_eager_execution;
          versioning_intent = input.versioning_intent;
          summary_payload = summary;
          priority = some input.priority;
        }) in
      schedule_encoded
        (is_falsy input.start_to_close_timeout && is_falsy input.schedule_to_close_timeout)
        (encode_args h context input.args) (encode_text h context input.summary) (remembered input)
        command rt

  unfoldable pub outbound_schedule_local_activity :
      StartLocalActivityInput h.Object
      → WorkflowRuntime h
      → Result h.Object ActivityHandle × WorkflowRuntime h
  unfolding schedule_encoded
  outbound_schedule_local_activity input rt =
      let context =
        activity_context rt.namespace rt.workflow_id rt.workflow_type input.activity
          (non_empty input.activity_id) rt.task_queue true in
      let command = λ (args : List h.Object) (summary : Option h.Object) (seq : ℕ).
        Command.schedule_local_activity (record {
          seq = seq;
          activity_id = given_id input.activity_id (h.str seq);
          activity_type = input.activity;
          args = args;
          schedule_to_close_timeout = input.schedule_to_close_timeout;
          schedule_to_start_timeout = input.schedule_to_start_timeout;
          start_to_close_timeout = input.start_to_close_timeout;
          retry_policy = input.retry_policy;
          local_retry_threshold = input.local_retry_threshold;
          cancellation_type = input.cancellation_type;
          headers = input.headers;
          summary_payload = summary;
          attempt = none;
          original_schedule_time = none;
        }) in
      schedule_encoded
        (is_falsy input.start_to_close_timeout && is_falsy input.schedule_to_close_timeout)
        (encode_args h context input.args) (encode_text h context input.summary)
        (remembered_local input) command rt
