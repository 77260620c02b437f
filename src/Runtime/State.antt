-- ===== src/Runtime/State.antt =====
-- temporalio_trio/worker/_runtime.py: the fields of `WorkflowRuntime`.
use python_trio_sdk.Common.{
  ℕ, ◌+◌, Bool, String, Option, none, some, List, [], ◌∷◌, ◌++◌, if◌then◌else◌, ℕ_eq,
}
use python_trio_sdk.Common.Dict
use python_trio_sdk.Common.Dict.{Dict}
use python_trio_sdk.Host.{Host, Exception, Result, ok, err}
use python_trio_sdk.Activation.{DoBackoff, Command, UpdateWorkflowJob}

-- What `completed_activities` and `completed_children` hold.
pub data Outcome (Object : Type 0) : Type 0 where
  value : Object → Outcome Object
  error : Exception Object → Outcome Object
  activity_backoff : DoBackoff Object → Outcome Object

-- `if isinstance(result, BaseException): raise result` and then `return result`
abbrev pub raise_or_return : {Object : Type 0} → Outcome Object → Result Object (Outcome Object)
raise_or_return (error e) = err e
raise_or_return (value v) = ok (value v)
raise_or_return (activity_backoff b) = ok (activity_backoff b)

-- A task of the workflow's nursery, by the coroutine that it runs.
pub data Task (Object : Type 0) : Type 0 where
  signal_handler : (coroutine : Object) (signal_name : String) → Task Object
  update_handler : (coroutine : Object) → UpdateWorkflowJob Object → Task Object

pub record Nursery (Object : Type 0) : Type 0 where
  pub cancel_called : Bool
  pub tasks : List (Task Object)

-- The fields that no operation changes.
pub record Identity (Object : Type 0) : Type 0 where
  pub run_id : String
  pub workflow_id : String
  pub workflow_type : String
  pub task_queue : String
  pub namespace : String
  pub attempt : ℕ
  pub start_time_ns : ℕ
  pub execution_timeout_ms : Option ℕ
  pub run_timeout_ms : Option ℕ
  pub task_timeout_ms : Option ℕ
  pub retry_policy_obj : Option Object
  pub continued_run_id : Option String
  pub cron_schedule : Option String
  pub parent_namespace : Option String
  pub parent_workflow_id : Option String
  pub parent_run_id : Option String
  pub root_workflow_id : Option String
  pub root_run_id : Option String
  pub headers : Dict String Object
  pub raw_memo : Dict String Object
  pub priority : Object
  pub first_execution_run_id : String
  pub search_attributes_data : Object
  pub typed_search_attributes_data : Object
  pub workflow_start_time_ns : ℕ
  pub disable_eager_activity_execution : Bool

-- The part of `StartActivityInput` and `StartLocalActivityInput` that the runtime reads again when
-- the activity is resolved. `task_queue` is none for a local activity.
pub record ActivityInput (Object : Type 0) : Type 0 where
  pub activity : String
  pub activity_id : Option String
  pub task_queue : Option String
  pub ret_type : Option Object
  pub is_local : Bool

-- A trio.Event that a dictionary holds is modelled by its value there: the coroutine that waits for
-- it has the same object. The events of `condition_waiters` are objects with an identity, a number;
-- `set_conditions` are those that were set and dropped from the list.
pub record WorkflowRuntime (h : Host) : Type 0 where
  pub identity : Identity h.Object
  pub open identity use *
  pub time_ns : ℕ
  pub is_replaying : Bool
  pub timer_seq : ℕ
  pub activity_seq : ℕ
  pub child_workflow_seq : ℕ
  pub signal_external_seq : ℕ
  pub cancel_external_seq : ℕ
  pub fired_timers : Dict ℕ ℕ
  pub completed_activities : Dict ℕ (Outcome h.Object)
  pub completed_children : Dict ℕ (Outcome h.Object)
  pub started_children : Dict ℕ String
  pub child_workflow_ret_types : Dict ℕ (Option h.Object)
  pub child_workflow_ids : Dict ℕ String
  pub completed_external_signals : Dict ℕ (Option (Exception h.Object))
  pub completed_external_cancels : Dict ℕ (Option (Exception h.Object))
  pub pending_timers : Dict ℕ h.Event
  pub pending_activities : Dict ℕ h.Event
  pub activity_inputs : Dict ℕ (ActivityInput h.Object)
  pub pending_child_starts : Dict ℕ h.Event
  pub pending_children : Dict ℕ h.Event
  pub pending_external_signals : Dict ℕ h.Event
  pub pending_external_cancels : Dict ℕ h.Event
  pub commands : List (Command h.Object)
  pub nursery : Option (Nursery h.Object)
  -- whether a callback is installed, and how often it was called
  pub on_suspend : Bool
  pub suspensions : ℕ
  pub signal_handlers : Dict (Option String) h.Object
  pub query_handlers : Dict (Option String) h.Object
  pub update_handlers : Dict (Option String) h.Object
  pub update_validators : Dict (Option String) h.Object
  pub in_progress_updates : Dict String String
  pub cancel_requested : Bool
  pub condition_waiters : List ℕ
  pub set_conditions : List ℕ
  pub next_condition : ℕ
  pub patches_notified : List String
  pub patches_memoized : Dict String Bool
  pub read_only : Bool

-- What the coroutine of a call waits for.
pub data Wait : Type 0 where
  timer activity child_start child external_signal external_cancel condition : ℕ → Wait

-- An `async` call up to its next `await` that blocks: it has returned or raised, or it waits.
pub data Await (Object : Type 0) (A : Type 0) : Type 0 where
  done : Result Object A → Await Object A
  blocked : Wait → Await Object A

-- How trio resumes a coroutine: the event was set, or `trio.Cancelled` is raised at the `await`.
pub data Wake : Type 0 where
  event_set : Wake
  scope_cancelled : Wake

module _ {h : Host} where
  -- self.commands.append(command)
  abbrev pub emit : Command h.Object → WorkflowRuntime h → WorkflowRuntime h
  emit c rt = record rt { commands = rt.commands ++ c ∷ [] }

  -- `if self.on_suspend is not None: self.on_suspend()`
  abbrev pub notify_suspend : WorkflowRuntime h → WorkflowRuntime h
  notify_suspend rt = record rt {
    suspensions = if rt.on_suspend then rt.suspensions + 1 else rt.suspensions;
  }

-- `if seq in pending: pending[seq].set()`
abbrev pub wake : (h : Host) → ℕ → Dict ℕ h.Event → Dict ℕ h.Event
wake h seq pending = elim (Dict.get pending seq) [
  | none ↦ pending
  | some event ↦ Dict.put pending seq (h.set event)
]
