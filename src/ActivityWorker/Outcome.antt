-- ===== src/ActivityWorker/Outcome.antt =====
-- temporalio_trio/worker/_activity.py: how a started activity is completed.
use python_trio_sdk.Common.{
  ◌≡◌, refl, sym, ap, ◌∙◌, true, false, String, Option, none, some, List, [], ◌∷◌, ◌++◌, string_eq,
}
use python_trio_sdk.Common.Dict.{get, get-put, get-remove}
use python_trio_sdk.Host.{Exception, Result, ok, err}
use python_trio_sdk.ActivityWorker.State.{
  failed_with_message, cancelled_with_message, failed, cancelled, RunningActivity, TaskStatus,
  unset, TaskCompletion, ActivityWorker, send_status, new_activity,
}
use python_trio_sdk.ActivityWorker.Run.{
  ActivityConverter, Ended, known, started_with, handle_start_activity, status_of, status_with,
  cancelled_status, encoded_failure, finish_with, end_activity, forget,
}
use python_trio_sdk.ActivityWorker.Lifespan.{
  TaskEvent, end, of_token, of_token-++, happens, happen, between, Cause, uncancelled, by_request,
  by_error, last_cause, caused, IsRunning, happens-IsRunning,
}
use mathlib.Core.List.{append-nil}

module _ {Object : Type 0} (c : ActivityConverter Object) (t : String) where
  -- What a cancelled activity is completed with, by the last cause.
  unfoldable pub cancelled_for : Cause Object → Result Object (TaskStatus Object)
  cancelled_for uncancelled = ok (cancelled_with_message "Activity cancelled")
  cancelled_for by_request = encoded_failure c cancelled c.cancelled_error
  cancelled_for (by_error e) = encoded_failure c failed e

  cancelled_status-caused :
      (k : Cause Object) → cancelled_status c (caused true k) ≡ cancelled_for k
  unfolding cancelled_status cancelled_for caused new_activity
  cancelled_status-caused uncancelled = refl
  cancelled_status-caused by_request = refl
  cancelled_status-caused (by_error e) = refl

  -- What is sent when the activity ends.
  unfoldable pub sent_at_end :
      Option (Result Object (TaskStatus Object)) → List (TaskCompletion Object)
  sent_at_end none = []
  sent_at_end (some (ok s)) = record { task_token = t; status = s } ∷ []
  sent_at_end (some (err _)) = record { task_token = t; status = unset } ∷ []

  start-IsRunning :
      (activity_type : String) (args : List Object) (w : ActivityWorker Object)
      → known activity_type w.activities ≡ true
      → IsRunning t true
          (of_token t w.completions)
          uncancelled
          (handle_start_activity c t activity_type (ok args) w)
  unfolding handle_start_activity started_with caused
  start-IsRunning activity_type args w p = rw (p) (record {
    sent = refl;
    entry =
        rw
          (
            get-put w.running_activities t t (record new_activity { has_cancel_scope = true }),
            (string_eq.same_iff t t).1 refl,
          )
          refl;
  })

  send_status-sent :
      (s : TaskStatus Object) (w : ActivityWorker Object)
      → of_token t (send_status t s w).completions
        ≡ of_token t w.completions ++ record { task_token = t; status = s } ∷ []
  unfolding send_status of_token
  send_status-sent s w = of_token-++ t w.completions _ ∙ rw ((string_eq.same_iff t t).1 refl) refl

  forget-is_none : (w : ActivityWorker Object) → get (forget c t w).running_activities t ≡ none
  unfolding forget
  forget-is_none w = get-remove w.running_activities t t ∙ rw ((string_eq.same_iff t t).1 refl) refl

  finish_with-sent :
      (r : Option (Result Object (TaskStatus Object))) (w : ActivityWorker Object)
      → (of_token t (finish_with c t r w).1.completions ≡ of_token t w.completions ++ sent_at_end r)
        × (get (finish_with c t r w).1.running_activities t ≡ none)
  unfolding finish_with sent_at_end forget
  finish_with-sent none w = (sym (append-nil _), forget-is_none w)
  finish_with-sent (some (ok s)) w = (send_status-sent s w, forget-is_none (send_status t s w))
  finish_with-sent (some (err e)) w =
      (send_status-sent unset w, forget-is_none (send_status t unset w))

  happen-end :
      (running : RunningActivity Object) (w : ActivityWorker Object) (ended : Ended Object)
      → get w.running_activities t ≡ some running
      → happen c (end t ended) w ≡ (finish_with c t (status_of c running ended) w).1
  unfolding happen end_activity
  happen-end running w ended p = rw (happen, p) refl

  ended_from :
      {cs : List (TaskCompletion Object)} {k : Cause Object} (w : ActivityWorker Object)
      (ended : Ended Object)
      → IsRunning t true cs k w
      → (of_token t w.completions ≡ cs)
        × (of_token t (happen c (end t ended) w).completions
            ≡ cs ++ sent_at_end (status_with c (cancelled_for k) ended))
        × (get (happen c (end t ended) w).running_activities t ≡ none)
  unfolding status_of
  ended_from {cs = cs} {k = k} w ended i =
      let (sent, gone) = finish_with-sent (status_of c (caused true k) ended) w in
      rw (happen-end (caused true k) w ended i.entry) (
        i.sent,
        sent
            ∙ ap (λ l. l ++ sent_at_end (status_of c (caused true k) ended)) i.sent
            ∙ ap (λ r. cs ++ sent_at_end (status_with c r ended)) (cancelled_status-caused k),
        gone,
      )

  -- The worker starts an activity that it knows, whose arguments are decoded, and then anything happens
  -- but a start or an end of the same task: cancel requests, failed heartbeats, all the life of other
  -- tasks. Until the activity ends nothing is completed with its token. When it ends, exactly one
  -- completion is sent, none if it asks for asynchronous completion, with the status that belongs to
  -- its end and to its last cancellation, and it is not running any more.
  pub completed_exactly_once :
      (activity_type : String) (args : List Object) (evs : List (TaskEvent Object))
      (ended : Ended Object) (w : ActivityWorker Object)
      → known activity_type w.activities ≡ true
      → between t evs ≡ true
      → (let before = happens c evs (handle_start_activity c t activity_type (ok args) w) in
          (of_token t before.completions ≡ of_token t w.completions)
          × (of_token t (happen c (end t ended) before).completions
              ≡ of_token t w.completions
                ++ sent_at_end (status_with c (cancelled_for (last_cause t evs uncancelled)) ended))
          × (get (happen c (end t ended) before).running_activities t ≡ none))
  completed_exactly_once activity_type args evs ended w p q =
      ended_from _ ended
        (happens-IsRunning c t true _ evs uncancelled _ q (start-IsRunning activity_type args w p))

  undecodable-IsRunning :
      (activity_type : String) (e : Exception Object) (w : ActivityWorker Object)
      → known activity_type w.activities ≡ true
      → IsRunning t false
          (of_token t w.completions
            ++ record {
              task_token = t;
              status = failed_with_message (c.message e) "InputDecodingError";
            }
              ∷ [])
          uncancelled
          (handle_start_activity c t activity_type (err e) w)
  unfolding handle_start_activity started_with caused send_status new_activity
  undecodable-IsRunning activity_type e w p = rw (p) (record {
    sent = send_status-sent _ w;
    entry =
        rw (get-put w.running_activities t t new_activity, (string_eq.same_iff t t).1 refl) refl;
  })

  -- The worker starts an activity that it knows and cannot decode its arguments. It sends one
  -- completion, a failure of type InputDecodingError. Whatever happens then but another start or an
  -- end of the same task, the activity stays among the running ones, and nothing more is completed
  -- with its token.
  pub undecodable_activity_stays :
      (activity_type : String) (e : Exception Object) (evs : List (TaskEvent Object))
      (w : ActivityWorker Object)
      → known activity_type w.activities ≡ true
      → between t evs ≡ true
      → (let after = happens c evs (handle_start_activity c t activity_type (err e) w) in
          (of_token t after.completions
            ≡ of_token t w.completions
              ++ record {
                task_token = t;
                status = failed_with_message (c.message e) "InputDecodingError";
              }
                ∷ [])
          × (get after.running_activities t ≡ some (caused false (last_cause t evs uncancelled))))
  undecodable_activity_stays activity_type e evs w p q =
      let i =
        happens-IsRunning c t false _ evs uncancelled _ q
          (undecodable-IsRunning activity_type e w p) in
      (i.sent, i.entry)
