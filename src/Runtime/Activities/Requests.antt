-- ===== src/Runtime/Activities/Requests.antt =====
-- temporalio_trio/worker/_interceptor.py: the inputs with which an activity is started, and the
-- arguments of `execute_activity`. A `timedelta` is a number of milliseconds.
use python_trio_sdk.Common.{ℕ, Bool, true, false, String, Option, none, some, List, nat_eq}
use python_trio_sdk.Common.Dict.{Dict}
use python_trio_sdk.Runtime.State.{ActivityInput}

module _ (Object : Type 0) where
  pub record StartActivityInput : Type 0 where
    pub activity : String
    pub args : List Object
    pub activity_id : Option String
    pub task_queue : Option String
    pub schedule_to_close_timeout : Option ℕ
    pub schedule_to_start_timeout : Option ℕ
    pub start_to_close_timeout : Option ℕ
    pub heartbeat_timeout : Option ℕ
    pub retry_policy : Option Object
    pub cancellation_type : ℕ
    pub headers : Dict String Object
    pub disable_eager_execution : Bool
    pub versioning_intent : Option ℕ
    pub summary : Option String
    pub priority : Object
    pub arg_types : Option Object
    pub ret_type : Option Object

  pub record StartLocalActivityInput : Type 0 where
    pub activity : String
    pub args : List Object
    pub activity_id : Option String
    pub schedule_to_close_timeout : Option ℕ
    pub schedule_to_start_timeout : Option ℕ
    pub start_to_close_timeout : Option ℕ
    pub retry_policy : Option Object
    pub local_retry_threshold : Option ℕ
    pub cancellation_type : ℕ
    pub headers : Dict String Object
    pub summary : Option String
    pub arg_types : Option Object
    pub ret_type : Option Object

-- `not timeout`: None or a timedelta of zero
abbrev pub is_falsy : Option ℕ → Bool
is_falsy none = true
is_falsy (some t) = nat_eq t 0

module _ {Object : Type 0} where
  abbrev pub remembered : StartActivityInput Object → ActivityInput Object
  remembered i = record {
    activity = i.activity;
    activity_id = i.activity_id;
    task_queue = i.task_queue;
    ret_type = i.ret_type;
    is_local = false;
  }

  abbrev pub remembered_local : StartLocalActivityInput Object → ActivityInput Object
  remembered_local i = record {
    activity = i.activity;
    activity_id = i.activity_id;
    task_queue = none;
    ret_type = i.ret_type;
    is_local = true;
  }
