-- ===== src/Tests/Activities.antt =====
-- The theorems on the activity worker.
use python_trio_sdk.Common.{
  if◌then◌else◌, ◌==◌, ℕ, String, true, ◌≡◌, refl, false, none, some, List, [], string_eq, ◌∷◌,
}
use python_trio_sdk.Common.Dict.{get}
use python_trio_sdk.Host.{Result, ok, err, timeout_error}
use python_trio_sdk.Host
use python_trio_sdk.ActivityWorker.State.{failed, failed_with_message, ActivityWorker}
use python_trio_sdk.ActivityWorker.Run.{
  ActivityConverter, scope_cancelled, handle_start_activity, status_with, known, encoded_failure,
}
use python_trio_sdk.ActivityWorker.Heartbeats.{
  Heartbeat, Heartbeats, no_heartbeats, receive_all, interrupted, flush, Sending, not_sent,
  answered, is_sent, is_due, receive, send_heartbeat, is_answered, request, latest, spaced,
}
use python_trio_sdk.ActivityWorker.Throttling.{IsDelivered, tried, heartbeats_throttled_and_flushed}
use python_trio_sdk.ActivityWorker.Lifespan.{
  TaskEvent, start, cancel, heartbeat_error, end, happens, happen, of_token, between, last_cause,
  caused, by_error,
}
use python_trio_sdk.ActivityWorker.Outcome.{
  cancelled_for, sent_at_end, completed_exactly_once, undecodable_activity_stays,
}

abbrev converter : ActivityConverter ℕ
converter = record {
  encode = λ x. ok (x ∷ []);
  encode_failure = λ e. ok 5;
  cancelled_error = Host.cancelled;
  message = λ _. "m";
}

abbrev idle : ActivityWorker ℕ
idle = record { activities = "greet" ∷ []; running_activities = []; completions = [] }

abbrev between_events : List (TaskEvent ℕ)
between_events =
    start "b" "greet" (ok [])
    ∷ cancel "a"
    ∷ start "c" "unknown" (ok [])
    ∷ heartbeat_error "a" timeout_error
    ∷ []

completed_exactly_once_example :
    let before =
      happens converter between_events (handle_start_activity converter "a" "greet" (ok []) idle) in
    (of_token "a" before.completions ≡ [])
    × (of_token "a" (happen converter (end "a" scope_cancelled) before).completions
        ≡ record { task_token = "a"; status = failed 5 } ∷ [])
    × (get (happen converter (end "a" scope_cancelled) before).running_activities "a" ≡ none)
unfolding known between of_token sent_at_end status_with cancelled_for last_cause encoded_failure
completed_exactly_once_example =
    completed_exactly_once converter "a" "greet" [] between_events scope_cancelled idle refl refl

undecodable_activity_stays_example :
    let after =
      happens converter between_events
        (handle_start_activity converter "a" "greet" (err timeout_error) idle) in
    (of_token "a" after.completions
      ≡ record { task_token = "a"; status = failed_with_message "m" "InputDecodingError" } ∷ [])
    × (get after.running_activities "a" ≡ some (caused false (by_error timeout_error)))
unfolding known between of_token last_cause
undecodable_activity_stays_example =
    undecodable_activity_stays converter "a" "greet" timeout_error between_events idle refl refl

abbrev beats : List (Heartbeat String)
beats =
    record { now = 7; details = "a" }
    ∷ record { now = 8; details = "b" }
    ∷ record { now = 12; details = "c" }
    ∷ record { now = 14; details = "d" }
    ∷ []

-- The details "f" cannot be encoded.
abbrev sending : ℕ → String → Sending
sending now details = if details == "f" then not_sent else answered

heartbeats_throttled_and_flushed_example :
    let s : Heartbeats String = receive_all sending 5 beats no_heartbeats in
    let b : Heartbeat String = record { now = 14; details = "e" } in
    (spaced 5 (receive sending 5 b s).sent ≡ true)
    × (latest (flush sending 5 15 (receive sending 5 b s)) ≡ some "e")
    × (latest (flush sending 5 15 (interrupted sending 5 b s)) ≡ some "e")
unfolding IsDelivered is_sent tried is_due receive_all receive send_heartbeat is_answered request
    no_heartbeats
heartbeats_throttled_and_flushed_example =
    heartbeats_throttled_and_flushed sending 5 15 beats (record { now = 14; details = "e" })
