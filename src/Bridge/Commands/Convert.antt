-- ===== src/Bridge/Commands/Convert.antt =====
-- temporalio_trio/worker/_bridge_types.py: the branches of `poc_to_bridge_completion` that fill in
-- one message each.
use python_trio_sdk.Common.{String, Option, none, some, or_else, if◌then◌else◌, ◌==◌, string_eq}
use python_trio_sdk.Host.{Exception, Result, ok}
use python_trio_sdk.Activation.{
  StartTimerCommand, ScheduleActivityCommand, ScheduleLocalActivityCommand,
  StartChildWorkflowCommand, SignalExternalWorkflowCommand, ContinueAsNewCommand,
  UpdateResponseCommand, QueryResultCommand,
}
use python_trio_sdk.Bridge.Converters.{Converters, ◌>>=◌, each}
use python_trio_sdk.Bridge.Durations.{timer_duration, set_timeout}
use python_trio_sdk.Bridge.Commands.Fields.{
  text_field, number_field, summary_only, copy_memo, encode_given_attributes, encode_given_memo,
  given, extended,
}
use python_trio_sdk.Bridge.Commands.Messages.{
  StartTimer, ScheduleActivity, ScheduleLocalActivity, StartChild, Target, child_workflow_id,
  workflow_execution, SignalExternal, ContinueAsNew, QueryAnswer, succeeded, failed, Response,
  no_response, accepted, rejected, completed, UserMetadata,
}
use mathlib.Core.Option as O

-- `if cmd.child_workflow_id` and the other branch
unfoldable pub signal_target : Option String → (workflow_id : String) → Option String → Target
unfolding text_field
signal_target none workflow_id run_id = workflow_execution workflow_id (text_field run_id)
signal_target (some child) workflow_id run_id =
    if child == ""
    then workflow_execution workflow_id (text_field run_id)
    else child_workflow_id child

module _ {Object : Type 0} (c : Converters Object) where
  unfoldable pub start_timer_message : StartTimerCommand Object → StartTimer Object
  unfolding timer_duration
  start_timer_message cmd = record {
    seq = cmd.timer_id;
    start_to_fire_timeout = timer_duration cmd.duration_ms;
  }

  -- `if cmd.summary`
  unfoldable pub timer_metadata : Option String → Result Object (Option (UserMetadata Object))
  unfolding summary_only
  timer_metadata none = ok none
  timer_metadata (some s) =
      if s == "" then ok none else (c.to_payload (c.string s) >>= λ p. ok (summary_only (some p)))

  unfoldable pub schedule_activity_message :
      ScheduleActivityCommand Object → Result Object (ScheduleActivity Object)
  unfolding text_field number_field set_timeout
  schedule_activity_message cmd = do
    arguments ← extended c cmd.args
    retry_policy ← given c.policy_to_proto cmd.retry_policy
    ok record {
      seq = cmd.seq;
      activity_id = cmd.activity_id;
      activity_type = cmd.activity_type;
      task_queue = text_field cmd.task_queue;
      arguments = arguments;
      schedule_to_close_timeout = set_timeout c.floats cmd.schedule_to_close_timeout;
      schedule_to_start_timeout = set_timeout c.floats cmd.schedule_to_start_timeout;
      start_to_close_timeout = set_timeout c.floats cmd.start_to_close_timeout;
      heartbeat_timeout = set_timeout c.floats cmd.heartbeat_timeout;
      retry_policy = retry_policy;
      cancellation_type = cmd.cancellation_type;
      headers = c.apply_headers cmd.headers;
      do_not_eagerly_execute = cmd.do_not_eagerly_execute;
      versioning_intent = number_field cmd.versioning_intent;
      priority = O.map c.priority_to_proto cmd.priority;
    }

  unfoldable pub schedule_local_activity_message :
      ScheduleLocalActivityCommand Object → Result Object (ScheduleLocalActivity Object)
  unfolding number_field set_timeout
  schedule_local_activity_message cmd = do
    arguments ← extended c cmd.args
    retry_policy ← given c.policy_to_proto cmd.retry_policy
    ok record {
      seq = cmd.seq;
      activity_id = cmd.activity_id;
      activity_type = cmd.activity_type;
      arguments = arguments;
      schedule_to_close_timeout = set_timeout c.floats cmd.schedule_to_close_timeout;
      schedule_to_start_timeout = set_timeout c.floats cmd.schedule_to_start_timeout;
      start_to_close_timeout = set_timeout c.floats cmd.start_to_close_timeout;
      local_retry_threshold = set_timeout c.floats cmd.local_retry_threshold;
      retry_policy = retry_policy;
      cancellation_type = cmd.cancellation_type;
      headers = c.apply_headers cmd.headers;
      attempt = number_field cmd.attempt;
      original_schedule_time = cmd.original_schedule_time;
    }

  unfoldable pub start_child_message :
      StartChildWorkflowCommand Object → Result Object (StartChild Object)
  unfolding text_field number_field set_timeout copy_memo encode_given_attributes
  start_child_message cmd = do
    input ← extended c cmd.args
    retry_policy ← given c.policy_to_proto cmd.retry_policy
    attributes ← encode_given_attributes c cmd.search_attributes
    ok record {
      seq = cmd.seq;
      namespace = cmd.namespace;
      workflow_id = cmd.workflow_id;
      workflow_type = cmd.workflow_type;
      task_queue = text_field cmd.task_queue;
      input = input;
      workflow_execution_timeout = set_timeout c.floats cmd.execution_timeout;
      workflow_run_timeout = set_timeout c.floats cmd.run_timeout;
      workflow_task_timeout = set_timeout c.floats cmd.task_timeout;
      parent_close_policy = cmd.parent_close_policy;
      cancellation_type = cmd.cancellation_type;
      workflow_id_reuse_policy = cmd.id_reuse_policy;
      retry_policy = retry_policy;
      cron_schedule = cmd.cron_schedule;
      memo = copy_memo cmd.encoded_memo;
      search_attributes = attributes;
      headers = c.apply_headers cmd.headers;
      versioning_intent = number_field cmd.versioning_intent;
      priority = O.map c.priority_to_proto cmd.priority;
    }

  unfoldable pub signal_external_message :
      SignalExternalWorkflowCommand Object → Result Object (SignalExternal Object)
  unfolding signal_target
  signal_external_message cmd = do
    args ← extended c cmd.args
    ok record {
      seq = cmd.seq;
      target = signal_target cmd.child_workflow_id cmd.workflow_id cmd.run_id;
      signal_name = cmd.signal_name;
      args = args;
      headers = c.apply_headers cmd.headers;
    }

  unfoldable pub continue_as_new_message :
      ContinueAsNewCommand Object → Result Object (ContinueAsNew Object)
  unfolding text_field number_field set_timeout encode_given_memo encode_given_attributes each
  continue_as_new_message cmd = do
    arguments ← each c.to_payload cmd.args
    retry_policy ← given c.policy_to_proto cmd.retry_policy
    memo ← encode_given_memo c cmd.memo
    attributes ← encode_given_attributes c cmd.search_attributes
    ok record {
      workflow_type = cmd.workflow_type;
      task_queue = text_field cmd.task_queue;
      arguments = arguments;
      workflow_run_timeout = set_timeout c.floats cmd.run_timeout;
      workflow_task_timeout = set_timeout c.floats cmd.task_timeout;
      retry_policy = retry_policy;
      memo = memo;
      search_attributes = attributes;
      headers = c.apply_headers cmd.headers;
      versioning_intent = number_field cmd.versioning_intent;
    }

  unfoldable pub query_success_answer : Object → Result Object (QueryAnswer Object)
  query_success_answer result = do payload ← c.to_payload result; ok (succeeded payload)

  -- `if cmd.error`
  unfoldable pub query_answer : QueryResultCommand Object → Result Object (QueryAnswer Object)
  unfolding query_success_answer
  query_answer cmd = elim cmd.error [
    | none ↦ query_success_answer cmd.result
    | some e ↦ if e == "" then query_success_answer cmd.result else ok (failed e)
  ]

  -- The branches of an update response; with none of them the message stays empty.
  unfoldable pub reject_response : Exception Object → Result Object (Response Object)
  reject_response e = c.to_failure e >>= λ failure. ok (rejected failure)

  unfoldable pub complete_response : Object → Result Object (Response Object)
  complete_response result = c.to_payload result >>= λ payload. ok (completed payload)

  -- `none_object` is None.
  unfoldable pub response_message :
      (none_object : Object) → UpdateResponseCommand Object → Result Object (Response Object)
  unfolding reject_response complete_response
  response_message none_object cmd =
      if cmd.accepted then ok accepted else elim cmd.rejected_failure [
        | some e ↦ reject_response e
        | none ↦
            if cmd.is_completed
            then complete_response (or_else cmd.completed_result none_object)
            else ok no_response
      ]
