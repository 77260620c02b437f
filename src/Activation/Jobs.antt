-- ===== src/Activation/Jobs.antt =====
-- temporalio_trio/worker/_activation.py: activations and their jobs.
-- `Object` stands for the Python objects that the SDK passes on without a look.
use python_trio_sdk.Common.{ℕ, Bool, String, Option, List}
use python_trio_sdk.Common.Dict.{Dict}
use python_trio_sdk.Host.{Exception}

module _ (Object : Type 0) where
  pub record WorkflowStartedJob : Type 0 where
    pub workflow_type : String
    pub args : List Object
    pub workflow_id : String
    pub headers : Dict String Object
    pub namespace : String
    pub attempt : ℕ
    pub start_time_ns : ℕ
    pub execution_timeout_ms : Option ℕ
    pub run_timeout_ms : Option ℕ
    pub task_timeout_ms : Option ℕ
    pub retry_policy : Option Object
    pub continued_run_id : Option String
    pub cron_schedule : Option String
    pub parent_namespace : Option String
    pub parent_workflow_id : Option String
    pub parent_run_id : Option String
    pub root_workflow_id : Option String
    pub root_run_id : Option String
    pub raw_memo : Dict String Object
    pub priority : Object
    pub first_execution_run_id : String
    pub search_attributes : Object
    pub typed_search_attributes : Object
    pub workflow_start_time_ns : ℕ

  pub record SignalWorkflowJob : Type 0 where
    pub signal_name : String
    pub args : List Object
    pub headers : Dict String Object

  pub record QueryWorkflowJob : Type 0 where
    pub query_id : String
    pub query_type : String
    pub args : List Object
    pub headers : Dict String Object

  -- `job.status` is a string in the source; `unknown` stands for every other value
  pub data Status : Type 0 where
    completed failed status_cancelled backoff unknown : Status

  -- `DoBackoff` of sdk-core, by the fields that the SDK reads
  pub record DoBackoff : Type 0 where
    pub attempt : ℕ
    pub seconds : ℕ
    pub nanos : ℕ
    pub original_schedule_time : Object

  pub record ActivityResolvedJob : Type 0 where
    pub seq : ℕ
    pub status : Status
    pub result_payload : Option Object
    pub failure_proto : Option Object
    pub backoff : DoBackoff

  -- the enum's number, or the text that _bridge_types.py puts in its place
  pub data StartFailedCause : Type 0 where
    number : ℕ → StartFailedCause
    text : String → StartFailedCause

  pub record ChildWorkflowStartFailedJob : Type 0 where
    pub seq : ℕ
    pub workflow_id : String
    pub workflow_type : String
    pub cause : StartFailedCause

  pub record ChildWorkflowResolvedJob : Type 0 where
    pub seq : ℕ
    pub result_payload : Option Object
    pub failure_proto : Option Object

  -- `failure` is None on success
  pub record SignalExternalResolvedJob : Type 0 where
    pub seq : ℕ
    pub failure : Option (Exception Object)

  pub record CancelExternalResolvedJob : Type 0 where
    pub seq : ℕ
    pub failure : Option (Exception Object)

  pub record UpdateWorkflowJob : Type 0 where
    pub id : String
    pub protocol_instance_id : String
    pub name : String
    pub args : List Object
    pub run_validator : Bool
    pub headers : Dict String Object

  -- One constructor for each class of the union `WorkflowJob`.
  pub data WorkflowJob : Type 0 where
    workflow_started : WorkflowStartedJob → WorkflowJob
    timer_fired : (timer_id : ℕ) → WorkflowJob
    cancel_workflow : List Object → WorkflowJob
    signal_workflow : SignalWorkflowJob → WorkflowJob
    query_workflow : QueryWorkflowJob → WorkflowJob
    update_workflow : UpdateWorkflowJob → WorkflowJob
    notify_has_patch : (patch_id : String) → WorkflowJob
    activity_resolved : ActivityResolvedJob → WorkflowJob
    child_workflow_started : (seq : ℕ) (run_id : String) → WorkflowJob
    child_workflow_start_failed : ChildWorkflowStartFailedJob → WorkflowJob
    child_workflow_resolved : ChildWorkflowResolvedJob → WorkflowJob
    signal_external_resolved : SignalExternalResolvedJob → WorkflowJob
    cancel_external_resolved : CancelExternalResolvedJob → WorkflowJob

  pub record WorkflowActivation : Type 0 where
    pub jobs : List WorkflowJob
    pub timestamp_ns : ℕ
    pub run_id : String
    pub remove_from_cache : Bool
    pub eviction_reason : Option ℕ
    pub eviction_message : Option String
    pub is_replaying : Bool
    pub randomness_seed : Option ℕ
