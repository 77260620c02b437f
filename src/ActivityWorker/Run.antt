-- ===== src/ActivityWorker/Run.antt =====
-- temporalio_trio/worker/_activity.py: `_handle_start_activity`, cut where the activity runs.
use python_trio_sdk.Common.{
  Bool, true, false, String, concat, Option, none, some, List, [], ◌∷◌, if◌then◌else◌, ◌==◌,
  string_eq, ◌||◌,
}
use python_trio_sdk.Common.Dict.{put, remove}
use python_trio_sdk.Host.{Exception, Result, ok, err}
use python_trio_sdk.Host
use python_trio_sdk.ActivityWorker.State.{
  RunningActivity, TaskStatus, unset, completed, failed, cancelled, cancelled_with_message,
  failed_with_message, ActivityWorker, new_activity, send_status,
}

-- The data converter, and the `CancelledError("Cancelled")` of the temporalio package.
pub record ActivityConverter (Object : Type 0) : Type 0 where
  pub encode : Object → Result Object (List Object)
  pub encode_failure : Exception Object → Result Object Object
  pub cancelled_error : Exception Object
  pub message : Exception Object → String

-- How the code of the activity ends: it returns (None is none), raises, asks for asynchronous
-- completion, or is cancelled by its scope, which catches that.
pub data Ended (Object : Type 0) : Type 0 where
  returned : Option Object → Ended Object
  threw : Exception Object → Ended Object
  complete_async : Ended Object
  scope_cancelled : Ended Object

unfoldable pub known : String → List String → Bool
known activity_type [] = false
known activity_type (a ∷ activities) = a == activity_type || known activity_type activities

module _ {Object : Type 0} (c : ActivityConverter Object) where
  -- Up to the start of the activity's code; `args` is what `_decode_args` returns or raises.
  unfoldable pub started_with :
      String → Result Object (List Object) → ActivityWorker Object → ActivityWorker Object
  started_with task_token (err e) w =
      send_status task_token (failed_with_message (c.message e) "InputDecodingError")
        (record w { running_activities = put w.running_activities task_token new_activity })
  started_with task_token (ok args) w = record w {
    running_activities =
        put w.running_activities task_token (record new_activity { has_cancel_scope = true });
  }

  unfoldable pub handle_start_activity :
      (task_token activity_type : String)
      → Result Object (List Object)
      → ActivityWorker Object
      → ActivityWorker Object
  handle_start_activity task_token activity_type args w =
      if known activity_type w.activities
      then started_with task_token args w
      else send_status task_token
          (failed_with_message (concat "Activity type not found: " activity_type)
            "ActivityNotFoundError")
          w

  unfoldable pub encoded_failure :
      (Object → TaskStatus Object) → Exception Object → Result Object (TaskStatus Object)
  encoded_failure status e = elim (c.encode_failure e) [ ok f ↦ ok (status f) | err e' ↦ err e' ]

  unfoldable pub first_payload : List Object → TaskStatus Object
  first_payload [] = unset
  first_payload (payload ∷ _) = completed (some payload)

  unfoldable pub encoded_result : Option Object → Result Object (TaskStatus Object)
  encoded_result none = ok (completed none)
  encoded_result (some result) = elim (c.encode result) [
    | ok payloads ↦ ok (first_payload payloads)
    | err e ↦ err e
  ]

  unfoldable pub cancelled_status : RunningActivity Object → Result Object (TaskStatus Object)
  cancelled_status running = elim running.cancelled_due_to_heartbeat_error [
    | some e ↦ encoded_failure failed e
    | none ↦
        if running.cancelled_by_request
        then encoded_failure cancelled c.cancelled_error
        else ok (cancelled_with_message "Activity cancelled")
  ]

  -- The branches behind the activity's code, given what the branch of a cancelled activity does; none
  -- for asynchronous completion.
  unfoldable pub status_with :
      (when_cancelled : Result Object (TaskStatus Object))
      → Ended Object
      → Option (Result Object (TaskStatus Object))
  status_with when_cancelled complete_async = none
  status_with when_cancelled scope_cancelled = some when_cancelled
  status_with when_cancelled (threw Host.cancelled) = some when_cancelled
  status_with when_cancelled (threw e) = some (encoded_failure failed e)
  status_with when_cancelled (returned result) = some (encoded_result result)

  unfoldable pub status_of :
      RunningActivity Object → Ended Object → Option (Result Object (TaskStatus Object))
  status_of running ended = status_with (cancelled_status running) ended

  unfoldable pub forget : String → ActivityWorker Object → ActivityWorker Object
  forget task_token w = record w { running_activities = remove w.running_activities task_token }

  -- The `finally` block: the completion is sent as far as it was filled in, and an exception of the
  -- block before goes on.
  unfoldable pub finish_with :
      String
      → Option (Result Object (TaskStatus Object))
      → ActivityWorker Object
      → Result Object (Unit {0}) × ActivityWorker Object
  finish_with task_token none w = (ok tt, forget task_token w)
  finish_with task_token (some (ok status)) w =
      (ok tt, forget task_token (send_status task_token status w))
  finish_with task_token (some (err e)) w =
      (err e, forget task_token (send_status task_token unset w))

  -- `running` is the object that was put under the token when the activity started.
  unfoldable pub end_activity :
      String
      → RunningActivity Object
      → Ended Object
      → ActivityWorker Object
      → Result Object (Unit {0}) × ActivityWorker Object
  end_activity task_token running ended w = finish_with task_token (status_of running ended) w
