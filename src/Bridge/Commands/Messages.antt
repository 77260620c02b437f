-- ===== src/Bridge/Commands/Messages.antt =====
-- The protobuf messages of a completion by the fields that temporalio_trio/worker/_bridge_types.py
-- sets. A string or number that is not set has its default, a message that is not set is none.
use python_trio_sdk.Common.{ℕ, Bool, String, Option, List}
use python_trio_sdk.Common.Dict.{Dict}
use python_trio_sdk.Bridge.Messages.{Duration}

-- the oneof `target`
pub data Target : Type 0 where
  child_workflow_id : String → Target
  workflow_execution : (workflow_id run_id : String) → Target

module _ (Object : Type 0) where
  pub record StartTimer : Type 0 where
    pub seq : ℕ
    pub start_to_fire_timeout : Duration

  pub record ScheduleActivity : Type 0 where
    pub seq : ℕ
    pub activity_id : String
    pub activity_type : String
    pub task_queue : String
    pub arguments : List Object
    pub schedule_to_close_timeout : Option Duration
    pub schedule_to_start_timeout : Option Duration
    pub start_to_close_timeout : Option Duration
    pub heartbeat_timeout : Option Duration
    pub retry_policy : Option Object
    pub cancellation_type : ℕ
    pub headers : Dict String Object
    pub do_not_eagerly_execute : Bool
    pub versioning_intent : ℕ
    pub priority : Option Object

  pub record ScheduleLocalActivity : Type 0 where
    pub seq : ℕ
    pub activity_id : String
    pub activity_type : String
    pub arguments : List Object
    pub schedule_to_close_timeout : Option Duration
    pub schedule_to_start_timeout : Option Duration
    pub start_to_close_timeout : Option Duration
    pub local_retry_threshold : Option Duration
    pub retry_policy : Option Object
    pub cancellation_type : ℕ
    pub headers : Dict String Object
    pub attempt : ℕ
    pub original_schedule_time : Option Object

  pub record StartChild : Type 0 where
    pub seq : ℕ
    pub namespace : String
    pub workflow_id : String
    pub workflow_type : String
    pub task_queue : String
    pub input : List Object
    pub workflow_execution_timeout : Option Duration
    pub workflow_run_timeout : Option Duration
    pub workflow_task_timeout : Option Duration
    pub parent_close_policy : ℕ
    pub cancellation_type : ℕ
    pub workflow_id_reuse_policy : ℕ
    pub retry_policy : Option Object
    pub cron_schedule : String
    pub memo : Dict String Object
    pub search_attributes : Dict String Object
    pub headers : Dict String Object
    pub versioning_intent : ℕ
    pub priority : Option Object

  pub record SignalExternal : Type 0 where
    pub seq : ℕ
    pub target : Target
    pub signal_name : String
    pub args : List Object
    pub headers : Dict String Object

  pub record ContinueAsNew : Type 0 where
    pub workflow_type : String
    pub task_queue : String
    pub arguments : List Object
    pub workflow_run_timeout : Option Duration
    pub workflow_task_timeout : Option Duration
    pub retry_policy : Option Object
    pub memo : Dict String Object
    pub search_attributes : Dict String Object
    pub headers : Dict String Object
    pub versioning_intent : ℕ

  pub data QueryAnswer : Type 0 where
    succeeded : (response : Object) → QueryAnswer
    failed : (message : String) → QueryAnswer

  pub data Response : Type 0 where
    no_response accepted : Response
    rejected completed : Object → Response

  pub data Variant : Type 0 where
    start_timer : StartTimer → Variant
    cancel_timer : (seq : ℕ) → Variant
    complete_workflow_execution fail_workflow_execution : Object → Variant
    cancel_workflow_execution : Variant
    schedule_activity : ScheduleActivity → Variant
    schedule_local_activity : ScheduleLocalActivity → Variant
    request_cancel_activity request_cancel_local_activity : (seq : ℕ) → Variant
    respond_to_query : (query_id : String) → QueryAnswer → Variant
    start_child_workflow_execution : StartChild → Variant
    cancel_child_workflow_execution : (child_workflow_seq : ℕ) → Variant
    signal_external_workflow_execution : SignalExternal → Variant
    request_cancel_external_workflow_execution : (seq : ℕ) (workflow_id run_id : String) → Variant
    upsert_workflow_search_attributes : Dict String Object → Variant
    continue_as_new_workflow_execution : ContinueAsNew → Variant
    set_patch_marker : (patch_id : String) (deprecated : Bool) → Variant
    update_response : (protocol_instance_id : String) → Response → Variant

  pub record UserMetadata : Type 0 where
    pub summary : Option Object
    pub details : Option Object

  pub record WorkflowCommand : Type 0 where
    pub variant : Variant
    pub user_metadata : Option UserMetadata

  pub record BridgeCompletion : Type 0 where
    pub run_id : String
    pub commands : List WorkflowCommand
