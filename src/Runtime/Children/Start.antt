-- ===== src/Runtime/Children/Start.antt =====
-- temporalio_trio/worker/_runtime.py: `_outbound_start_child_workflow`.
use python_trio_sdk.Common.{ℕ, ◌+◌, String, Option, none, some, List, [], ◌∷◌, or_else, ℕ_eq}
use python_trio_sdk.Common.Dict
use python_trio_sdk.Common.Dict.{Dict}
use python_trio_sdk.Host.{
  Host, Result, ok, err, cancelled, key_error, index_error, SerializationContext, workflow_context,
}
use python_trio_sdk.Activation.{Command}
use python_trio_sdk.Runtime.State.{
  WorkflowRuntime, Await, done, blocked, child_start, Wake, event_set, scope_cancelled, emit,
  notify_suspend,
}
use python_trio_sdk.Runtime.Activities.Schedule.{encode_args, encode_text}
use python_trio_sdk.Runtime.Children.Requests.{StartChildWorkflowInput, ChildWorkflowHandle}

module _ (h : Host) where
  -- `{k: converter.to_payloads([v])[0] for k, v in input.memo.items()}`
  unfoldable pub encode_entries :
      SerializationContext → Dict String h.Object → Result h.Object (Dict String h.Object)
  encode_entries c [] = ok []
  encode_entries c ((k, v) ∷ memo) =
      let rest = encode_entries c memo in
      elim (h.to_payloads c (v ∷ [])) [
        | err e ↦ err e
        | ok [] ↦ err index_error
        | ok (p ∷ _) ↦ elim rest [ err e ↦ err e | ok encoded ↦ ok ((k, p) ∷ encoded) ]
      ]

  -- `if input.memo: ...`
  abbrev pub encode_memo :
      SerializationContext
      → Option (Dict String h.Object)
      → Result h.Object (Option (Dict String h.Object))
  encode_memo c none = ok none
  encode_memo c (some []) = ok none
  encode_memo c (some (entry ∷ memo)) = elim (encode_entries c (entry ∷ memo)) [
    | err e ↦ err e
    | ok encoded ↦ ok (some encoded)
  ]

-- The payloads of a start command.
pub record EncodedChild (Object : Type 0) : Type 0 where
  pub args : List Object
  pub memo : Option (Dict String Object)
  pub summary : Option Object
  pub details : Option Object

module _ {h : Host} where
  unfoldable pub next_child_workflow_seq : WorkflowRuntime h → ℕ × WorkflowRuntime h
  next_child_workflow_seq rt =
      (rt.child_workflow_seq + 1, record rt { child_workflow_seq = rt.child_workflow_seq + 1 })

  -- The four encodings, in the source's order.
  unfoldable pub encode_child :
      StartChildWorkflowInput h.Object → WorkflowRuntime h → Result h.Object (EncodedChild h.Object)
  encode_child input rt =
      let context = workflow_context rt.namespace input.id in
      elim (encode_args h context input.args) [
        | err e ↦ err e
        | ok args ↦ elim (encode_memo h context input.memo) [
          | err e ↦ err e
          | ok memo ↦ elim (encode_text h context input.static_summary) [
            | err e ↦ err e
            | ok summary ↦ elim (encode_text h context input.static_details) [
              | err e ↦ err e
              | ok details ↦
                  ok (record { args = args; memo = memo; summary = summary; details = details })
            ]
          ]
        ]
      ]

  abbrev pub start_command :
      ℕ
      → StartChildWorkflowInput h.Object
      → EncodedChild h.Object
      → WorkflowRuntime h
      → Command h.Object
  start_command seq input encoded rt = Command.start_child_workflow (record {
    seq = seq;
    workflow_id = input.id;
    workflow_type = input.workflow;
    namespace = rt.namespace;
    args = encoded.args;
    task_queue = some (or_else input.task_queue rt.task_queue);
    execution_timeout = input.execution_timeout;
    run_timeout = input.run_timeout;
    task_timeout = input.task_timeout;
    parent_close_policy = input.parent_close_policy;
    cancellation_type = input.cancellation_type;
    retry_policy = input.retry_policy;
    id_reuse_policy = input.id_reuse_policy;
    cron_schedule = input.cron_schedule;
    encoded_memo = encoded.memo;
    search_attributes = input.search_attributes;
    headers = input.headers;
    versioning_intent = input.versioning_intent;
    static_summary_payload = encoded.summary;
    static_details_payload = encoded.details;
    priority = some input.priority;
  })

  -- The number is taken, and the return type and the id are stored, before anything is encoded.
  unfoldable pub allocate_child :
      StartChildWorkflowInput h.Object → WorkflowRuntime h → ℕ × WorkflowRuntime h
  unfolding next_child_workflow_seq
  allocate_child input rt =
      let (seq, rt') = next_child_workflow_seq rt in
      (
        seq,
        record rt' {
          child_workflow_ret_types = Dict.put rt'.child_workflow_ret_types seq input.ret_type;
          child_workflow_ids = Dict.put rt'.child_workflow_ids seq input.id;
        },
      )

  -- The two events, the command and the suspension.
  unfoldable pub request_child :
      ℕ
      → Command h.Object
      → WorkflowRuntime h
      → Await h.Object (ChildWorkflowHandle h.Object) × WorkflowRuntime h
  request_child seq command rt = (
    blocked (child_start seq),
    notify_suspend (
        emit command (record rt {
          pending_child_starts = Dict.put rt.pending_child_starts seq h.new_event;
          pending_children = Dict.put rt.pending_children seq h.new_event;
        })),
  )

  unfoldable pub outbound_start_child_workflow :
      StartChildWorkflowInput h.Object
      → WorkflowRuntime h
      → Await h.Object (ChildWorkflowHandle h.Object) × WorkflowRuntime h
  unfolding allocate_child request_child
  outbound_start_child_workflow input rt =
      let (seq, rt') = allocate_child input rt in
      elim (encode_child input rt') [
        | err e ↦ (done (err e), rt')
        | ok encoded ↦ elim (Dict.get rt'.started_children seq) [
          | some run_id ↦ (
            done (
                ok (record {
                  seq = seq;
                  id = input.id;
                  first_execution_run_id = some run_id;
                  outcome = Dict.get rt'.completed_children seq;
                })),
            rt',
          )
          | none ↦ request_child seq (start_command seq input encoded rt') rt'
        ]
      ]

  -- behind `await start_event.wait()`
  unfoldable pub resume_child_start :
      ℕ
      → String
      → Wake
      → WorkflowRuntime h
      → Result h.Object (ChildWorkflowHandle h.Object) × WorkflowRuntime h
  resume_child_start seq id scope_cancelled rt =
      (err cancelled, emit (Command.cancel_child_workflow seq) rt)
  resume_child_start seq id event_set rt = elim (Dict.get rt.started_children seq) [
    | none ↦ (err (key_error seq), rt)
    | some run_id ↦ elim (Dict.get rt.pending_child_starts seq) [
      | none ↦ (err (key_error seq), rt)
      | some _ ↦ (
        ok (record { seq = seq; id = id; first_execution_run_id = some run_id; outcome = none }),
        record rt { pending_child_starts = Dict.remove rt.pending_child_starts seq },
      )
    ]
  ]
