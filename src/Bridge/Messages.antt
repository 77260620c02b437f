-- ===== src/Bridge/Messages.antt =====
-- The protobuf messages of an activation by the fields that temporalio_trio/worker/_bridge_types.py
-- reads. A message field that HasField looks at is an option.
use python_trio_sdk.Common.{ℕ, Bool, String, Option, List}
use python_trio_sdk.Common.Dict.{Dict}
use python_trio_sdk.Activation.{DoBackoff}

-- google.protobuf.Duration and Timestamp
pub record Duration : Type 0 where
  pub seconds : ℕ
  pub nanos : ℕ

pub record ParentInfo : Type 0 where
  pub namespace : String
  pub workflow_id : String
  pub run_id : String

pub record RootWorkflow : Type 0 where
  pub workflow_id : String
  pub run_id : String

module _ (Object : Type 0) where
  pub record InitializeWorkflow : Type 0 where
    pub workflow_type : String
    pub workflow_id : String
    pub arguments : List Object
    pub headers : Dict String Object
    pub attempt : ℕ
    pub workflow_execution_timeout : Option Duration
    pub workflow_run_timeout : Option Duration
    pub workflow_task_timeout : Option Duration
    pub retry_policy : Option Object
    pub start_time : Option Duration
    pub parent_workflow_info : Option ParentInfo
    pub root_workflow : Option RootWorkflow
    pub memo : Option (Dict String Object)
    pub priority : Option Object
    pub search_attributes : Object
    pub continued_from_execution_run_id : String
    pub cron_schedule : String
    pub first_execution_run_id : String

  pub record SignalWorkflow : Type 0 where
    pub signal_name : String
    pub input : List Object
    pub headers : Dict String Object

  pub record QueryWorkflow : Type 0 where
    pub query_id : String
    pub query_type : String
    pub arguments : List Object
    pub headers : Dict String Object

  -- the oneof `status` of an ActivityResolution
  pub data Resolution : Type 0 where
    completed failed status_cancelled : Object → Resolution
    backoff : DoBackoff Object → Resolution
    no_status : Resolution

  pub data StartStatus : Type 0 where
    succeeded : (run_id : String) → StartStatus
    start_failed : (workflow_id workflow_type : String) (cause : ℕ) → StartStatus
    start_cancelled : (failure : Object) → StartStatus
    no_start_status : StartStatus

  pub data ChildResult : Type 0 where
    child_completed child_failed child_cancelled : Object → ChildResult
    no_child_result : ChildResult

  pub record DoUpdate : Type 0 where
    pub id : String
    pub protocol_instance_id : String
    pub name : String
    pub input : List Object
    pub run_validator : Bool
    pub headers : Dict String Object

  -- the oneof `variant`; `other` has the name of a job that the SDK does not know
  pub data ActivationJob : Type 0 where
    initialize_workflow : InitializeWorkflow → ActivationJob
    fire_timer : (seq : ℕ) → ActivationJob
    cancel_workflow : ActivationJob
    signal_workflow : SignalWorkflow → ActivationJob
    query_workflow : QueryWorkflow → ActivationJob
    resolve_activity : (seq : ℕ) (result : Resolution) → ActivationJob
    resolve_child_workflow_execution_start : (seq : ℕ) (status : StartStatus) → ActivationJob
    resolve_child_workflow_execution : (seq : ℕ) (result : ChildResult) → ActivationJob
    resolve_signal_external_workflow : (seq : ℕ) (failure : Object) → ActivationJob
    resolve_request_cancel_external_workflow : (seq : ℕ) (failure : Object) → ActivationJob
    do_update : DoUpdate → ActivationJob
    notify_has_patch : (patch_id : String) → ActivationJob
    remove_from_cache : (reason : ℕ) (message : String) → ActivationJob
    other : (name : String) → ActivationJob

  pub record BridgeActivation : Type 0 where
    pub jobs : List ActivationJob
    pub timestamp : Duration
    pub run_id : String
    pub is_replaying : Bool
    pub randomness_seed : ℕ
