-- ===== src/ActivityWorker/State.antt =====
-- temporalio_trio/worker/_activity.py: the state of a TrioActivityWorker, and the cancellation of a
-- running activity. A task token is a text.
use python_trio_sdk.Common.{
  Bool, true, false, String, Option, none, some, List, [], ◌∷◌, ◌++◌, if◌then◌else◌, not, ◌&&◌,
  string_eq,
}
use python_trio_sdk.Common.Dict.{Dict, get, put}
use python_trio_sdk.Host.{Exception}

module _ (Object : Type 0) where
  -- `cancel_called` belongs to the cancel scope.
  pub record RunningActivity : Type 0 where
    pub cancelled_event : Bool
    pub has_cancel_scope : Bool
    pub cancel_called : Bool
    pub done : Bool
    pub cancelled_by_request : Bool
    pub cancelled_due_to_heartbeat_error : Option (Exception Object)

  -- The oneof `status` of a completion's result. A success of None has no payload.
  pub data TaskStatus : Type 0 where
    unset : TaskStatus
    completed : Option Object → TaskStatus
    failed cancelled : (failure : Object) → TaskStatus
    cancelled_with_message : String → TaskStatus
    failed_with_message : (message error_type : String) → TaskStatus

  pub record TaskCompletion : Type 0 where
    pub task_token : String
    pub status : TaskStatus

  pub record ActivityWorker : Type 0 where
    pub activities : List String
    pub running_activities : Dict String RunningActivity
    pub completions : List TaskCompletion

module _ {Object : Type 0} where
  unfoldable pub new_activity : RunningActivity Object
  new_activity = record {
    cancelled_event = false;
    has_cancel_scope = false;
    cancel_called = false;
    done = false;
    cancelled_by_request = false;
    cancelled_due_to_heartbeat_error = none;
  }

  -- `_RunningActivity.cancel`
  unfoldable pub cancel_running :
      (by_request : Bool)
      → Option (Exception Object)
      → RunningActivity Object
      → RunningActivity Object
  cancel_running by_request error running = record running {
    cancelled_by_request = by_request;
    cancelled_due_to_heartbeat_error = error;
    cancelled_event = true;
    cancel_called =
        if not running.done && running.has_cancel_scope then true else running.cancel_called;
  }

  unfoldable pub send_status :
      String → TaskStatus Object → ActivityWorker Object → ActivityWorker Object
  send_status task_token status w = record w {
    completions = w.completions ++ record { task_token = task_token; status = status } ∷ [];
  }

  -- A change of the entry of a token, if there is one.
  unfoldable pub change_running :
      String
      → (RunningActivity Object → RunningActivity Object)
      → ActivityWorker Object
      → ActivityWorker Object
  change_running task_token f w = elim (get w.running_activities task_token) [
    | none ↦ w
    | some running ↦ record w {
      running_activities = put w.running_activities task_token (f running);
    }
  ]

  -- `_handle_cancel_activity`
  unfoldable pub handle_cancel_activity : String → ActivityWorker Object → ActivityWorker Object
  handle_cancel_activity task_token w = change_running task_token (cancel_running true none) w

  -- `_send_heartbeat` whose request failed
  unfoldable pub heartbeat_failed :
      String → Exception Object → ActivityWorker Object → ActivityWorker Object
  heartbeat_failed task_token e w =
      change_running task_token
        (λ running. if running.done then running else cancel_running false (some e) running) w
