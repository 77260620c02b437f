-- ===== src/Runtime/Children/Requests.antt =====
-- temporalio_trio/worker/_interceptor.py and workflow.py: the input with which a child workflow is
-- started, and its handle. A `timedelta` is a number of milliseconds.
use python_trio_sdk.Common.{ℕ, String, Option, List}
use python_trio_sdk.Common.Dict.{Dict}
use python_trio_sdk.Runtime.State.{Outcome}

module _ (Object : Type 0) where
  pub record StartChildWorkflowInput : Type 0 where
    pub workflow : String
    pub args : List Object
    pub id : String
    pub task_queue : Option String
    pub cancellation_type : ℕ
    pub parent_close_policy : ℕ
    pub execution_timeout : Option ℕ
    pub run_timeout : Option ℕ
    pub task_timeout : Option ℕ
    pub id_reuse_policy : ℕ
    pub retry_policy : Option Object
    pub cron_schedule : String
    pub memo : Option (Dict String Object)
    pub search_attributes : Option Object
    pub headers : Dict String Object
    pub arg_types : Option Object
    pub ret_type : Option Object
    pub versioning_intent : Option ℕ
    pub static_summary : Option String
    pub static_details : Option String
    pub priority : Object

  -- `outcome` stands for `_result`, `_failure` and `_completed`
  pub record ChildWorkflowHandle : Type 0 where
    pub seq : ℕ
    pub id : String
    pub first_execution_run_id : Option String
    pub outcome : Option (Outcome Object)
