-- ===== src/Activation/Commands.antt =====
-- temporalio_trio/worker/_activation.py: the commands that a workflow emits, with the query and
-- patch commands of _runtime.py. A `timedelta` is a number of milliseconds.
use python_trio_sdk.Common.{ℕ, Bool, String, Option, List}
use python_trio_sdk.Common.Dict.{Dict}
use python_trio_sdk.Host.{Exception}

module _ (Object : Type 0) where
  pub record StartTimerCommand : Type 0 where
    pub timer_id : ℕ
    pub duration_ms : ℕ
    pub summary : Option String

  pub record ScheduleActivityCommand : Type 0 where
    pub seq : ℕ
    pub activity_id : String
    pub activity_type : String
    pub args : List Object
    pub task_queue : Option String
    pub schedule_to_close_timeout : Option ℕ
    pub schedule_to_start_timeout : Option ℕ
    pub start_to_close_timeout : Option ℕ
    pub heartbeat_timeout : Option ℕ
    pub retry_policy : Option Object
    pub cancellation_type : ℕ
    pub headers : Dict String Object
    pub do_not_eagerly_execute : Bool
    pub versioning_intent : Option ℕ
    pub summary_payload : Option Object
    pub priority : Option Object

  pub record ScheduleLocalActivityCommand : Type 0 where
    pub seq : ℕ
    pub activity_id : String
    pub activity_type : String
    pub args : List Object
    pub schedule_to_close_timeout : Option ℕ
    pub schedule_to_start_timeout : Option ℕ
    pub start_to_close_timeout : Option ℕ
    pub retry_policy : Option Object
    pub local_retry_threshold : Option ℕ
    pub cancellation_type : ℕ
    pub headers : Dict String Object
    pub summary_payload : Option Object
    pub attempt : Option ℕ
    pub original_schedule_time : Option Object

  pub record StartChildWorkflowCommand : Type 0 where
    pub seq : ℕ
    pub workflow_id : String
    pub workflow_type : String
    pub namespace : String
    pub args : List Object
    pub task_queue : Option String
    pub execution_timeout : Option ℕ
    pub run_timeout : Option ℕ
    pub task_timeout : Option ℕ
    pub parent_close_policy : ℕ
    pub cancellation_type : ℕ
    pub retry_policy : Option Object
    pub id_reuse_policy : ℕ
    pub cron_schedule : String
    pub encoded_memo : Option (Dict String Object)
    pub search_attributes : Option Object
    pub headers : Dict String Object
    pub versioning_intent : Option ℕ
    pub static_summary_payload : Option Object
    pub static_details_payload : Option Object
    pub priority : Option Object

  pub record SignalExternalWorkflowCommand : Type 0 where
    pub seq : ℕ
    pub workflow_id : String
    pub signal_name : String
    pub run_id : Option String
    pub args : List Object
    pub headers : Dict String Object
    pub child_workflow_id : Option String

  pub record RequestCancelExternalWorkflowCommand : Type 0 where
    pub seq : ℕ
    pub workflow_id : String
    pub run_id : Option String

  pub record ContinueAsNewCommand : Type 0 where
    pub workflow_type : String
    pub args : List Object
    pub task_queue : Option String
    pub run_timeout : Option ℕ
    pub task_timeout : Option ℕ
    pub retry_policy : Option Object
    pub memo : Option Object
    pub search_attributes : Option Object
    pub headers : Dict String Object
    pub versioning_intent : Option ℕ

  pub record UpdateResponseCommand : Type 0 where
    pub protocol_instance_id : String
    pub accepted : Bool
    pub rejected_failure : Option (Exception Object)
    pub completed_result : Option Object
    pub is_completed : Bool

  pub record QueryResultCommand : Type 0 where
    pub query_id : String
    pub result : Object
    pub error : Option String

  pub data Command : Type 0 where
    start_timer : StartTimerCommand → Command
    cancel_timer : (timer_id : ℕ) → Command
    schedule_activity : ScheduleActivityCommand → Command
    schedule_local_activity : ScheduleLocalActivityCommand → Command
    request_cancel_activity : (seq : ℕ) → Command
    request_cancel_local_activity : (seq : ℕ) → Command
    start_child_workflow : StartChildWorkflowCommand → Command
    cancel_child_workflow : (seq : ℕ) → Command
    signal_external_workflow : SignalExternalWorkflowCommand → Command
    request_cancel_external_workflow : RequestCancelExternalWorkflowCommand → Command
    set_patch_marker : (patch_id : String) (deprecated : Bool) → Command
    upsert_search_attributes : Object → Command
    update_response : UpdateResponseCommand → Command
    query_result : QueryResultCommand → Command
    query_success : (query_id : String) (result : Object) → Command
    query_failure : (query_id : String) (error : Exception Object) → Command
    complete_workflow : (result : Object) → Command
    fail_workflow : (exception : Exception Object) → Command
    cancel_workflow_execution : Command
    continue_as_new : ContinueAsNewCommand → Command
