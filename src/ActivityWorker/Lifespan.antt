-- ===== src/ActivityWorker/Lifespan.antt =====
-- temporalio_trio/worker/_activity.py: an activity from its start to its completion, with what happens
-- to the worker in between.
use python_trio_sdk.Common.{
  ◌≡◌, refl, sym, ap, subst, ◌∙◌, Bool, true, false, not, ◌&&◌, String, concat, Option, none, some,
  List, [], ◌∷◌, ◌++◌, if◌then◌else◌, ◌==◌, string_eq, Option-cases, Bool-cases, inl, inr, arith,
}
use python_trio_sdk.Common.Dict.{get, put, get-put, get-remove}
use python_trio_sdk.Host.{Exception, Result, ok, err}
use python_trio_sdk.ActivityWorker.State.{
  RunningActivity, TaskStatus, unset, new_activity, TaskCompletion, ActivityWorker, send_status,
  change_running, cancel_running, handle_cancel_activity, heartbeat_failed, failed_with_message,
}
use python_trio_sdk.ActivityWorker.Run.{
  ActivityConverter, Ended, known, started_with, handle_start_activity, status_of, finish_with,
  end_activity, forget,
}
use mathlib.Core.List.{append-nil}

-- What happens to a worker, by the token that it is about.
pub data TaskEvent (Object : Type 0) : Type 0 where
  start : (task_token activity_type : String) → Result Object (List Object) → TaskEvent Object
  cancel : (task_token : String) → TaskEvent Object
  heartbeat_error : (task_token : String) → Exception Object → TaskEvent Object
  end : (task_token : String) → Ended Object → TaskEvent Object

unfoldable pub of_token :
    {Object : Type 0} → String → List (TaskCompletion Object) → List (TaskCompletion Object)
of_token t [] = []
of_token t (c ∷ cs) = if c.task_token == t then c ∷ of_token t cs else of_token t cs

elsewhere : (a b : Bool) → (not a && b) ≡ true → (a ≡ false) × (b ≡ true)
elsewhere a b p = ground (arith, p)

keep-++ :
    {A : Type 0} (b : Bool) (c : A) (es fs ds : List A)
    → es ≡ fs ++ ds
    → (if b then c ∷ es else es) ≡ (if b then c ∷ fs else fs) ++ ds
keep-++ true c es fs ds p = ap (λ xs. c ∷ xs) p
keep-++ false c es fs ds p = p

pub of_token-++ :
    {Object : Type 0} (t : String) (cs ds : List (TaskCompletion Object))
    → of_token t (cs ++ ds) ≡ of_token t cs ++ of_token t ds
unfolding of_token
of_token-++ t [] ds = refl
of_token-++ t (c ∷ cs) ds =
    keep-++ (c.task_token == t) c (of_token t (cs ++ ds)) (of_token t cs) (of_token t ds)
      (of_token-++ t cs ds)

module _ {Object : Type 0} (c : ActivityConverter Object) where
  -- The end of an activity whose token is not known does not occur.
  unfoldable pub happen : TaskEvent Object → ActivityWorker Object → ActivityWorker Object
  happen (start t activity_type args) w = handle_start_activity c t activity_type args w
  happen (cancel t) w = handle_cancel_activity t w
  happen (heartbeat_error t e) w = heartbeat_failed t e w
  happen (end t ended) w = elim (get w.running_activities t) [
    | none ↦ w
    | some running ↦ (end_activity c t running ended w).1
  ]

  unfoldable pub happens : List (TaskEvent Object) → ActivityWorker Object → ActivityWorker Object
  happens [] w = w
  happens (ev ∷ evs) w = happens evs (happen ev w)

-- No start and no end of the activity.
unfoldable pub between : {Object : Type 0} → String → List (TaskEvent Object) → Bool
between t [] = true
between t (start u _ _ ∷ evs) = not (u == t) && between t evs
between t (end u _ ∷ evs) = not (u == t) && between t evs
between t (cancel _ ∷ evs) = between t evs
between t (heartbeat_error _ _ ∷ evs) = between t evs

-- Why an activity is cancelled: a request, or a heartbeat that failed.
pub data Cause (Object : Type 0) : Type 0 where
  uncancelled by_request : Cause Object
  by_error : Exception Object → Cause Object

-- The last one counts.
unfoldable pub last_cause :
    {Object : Type 0} → String → List (TaskEvent Object) → Cause Object → Cause Object
last_cause t [] k = k
last_cause t (start _ _ _ ∷ evs) k = last_cause t evs k
last_cause t (end _ _ ∷ evs) k = last_cause t evs k
last_cause t (cancel u ∷ evs) k = last_cause t evs (if u == t then by_request else k)
last_cause t (heartbeat_error u e ∷ evs) k = last_cause t evs (if u == t then by_error e else k)

-- The entry of an activity, which has a cancel scope once its code has been started.
unfoldable pub caused : {Object : Type 0} → (scope : Bool) → Cause Object → RunningActivity Object
caused scope uncancelled = record new_activity { has_cancel_scope = scope }
caused scope by_request = record new_activity {
  has_cancel_scope = scope;
  cancelled_event = true;
  cancel_called = scope;
  cancelled_by_request = true;
}
caused scope (by_error e) = record new_activity {
  has_cancel_scope = scope;
  cancelled_event = true;
  cancel_called = scope;
  cancelled_due_to_heartbeat_error = some e;
}

cancel-caused :
    {Object : Type 0} (scope : Bool) (k : Cause Object)
    → cancel_running true none (caused scope k) ≡ caused scope by_request
unfolding caused cancel_running new_activity
cancel-caused true uncancelled = refl
cancel-caused true by_request = refl
cancel-caused true (by_error e) = refl
cancel-caused false uncancelled = refl
cancel-caused false by_request = refl
cancel-caused false (by_error e) = refl

failed-caused :
    {Object : Type 0} (e : Exception Object) (scope : Bool) (k : Cause Object)
    → (if (caused scope k).done
        then caused scope k
        else cancel_running false (some e) (caused scope k))
      ≡ caused scope (by_error e)
unfolding caused cancel_running new_activity
failed-caused e true uncancelled = refl
failed-caused e true by_request = refl
failed-caused e true (by_error _) = refl
failed-caused e false uncancelled = refl
failed-caused e false by_request = refl
failed-caused e false (by_error _) = refl

module _ {Object : Type 0} (t : String) (scope : Bool) (cs : List (TaskCompletion Object))
    (k : Cause Object) where
  -- The activity is running, cancelled for `k`, and the completions with its token are `cs`.
  pub record IsRunning (w : ActivityWorker Object) : Type 0 where
    pub sent : of_token t w.completions ≡ cs
    pub entry : get w.running_activities t ≡ some (caused scope k)

  send_other-IsRunning :
      (u : String) (s : TaskStatus Object) (w : ActivityWorker Object)
      → (u == t) ≡ false
      → IsRunning w
      → IsRunning (send_status u s w)
  unfolding send_status of_token
  send_other-IsRunning u s w other r = record {
    sent = of_token-++ t w.completions _ ∙ (rw (other) (append-nil _) ∙ r.sent);
    entry = r.entry;
  }

  put_other-IsRunning :
      (u : String) (running : RunningActivity Object) (w : ActivityWorker Object)
      → (u == t) ≡ false
      → IsRunning w
      → IsRunning (record w { running_activities = put w.running_activities u running })
  put_other-IsRunning u running w other r = record {
    sent = r.sent;
    entry = rw (get-put w.running_activities u t running, other) r.entry;
  }

  change_other-IsRunning :
      (u : String) (f : RunningActivity Object → RunningActivity Object) (w : ActivityWorker Object)
      → (u == t) ≡ false
      → IsRunning w
      → IsRunning (change_running u f w)
  unfolding change_running
  change_other-IsRunning u f w other r = elim (Option-cases (get w.running_activities u)) [
    | inl p ↦ rw (p, change_running) r
    | inr (running, p) ↦ rw (p, change_running) (put_other-IsRunning u (f running) w other r)
  ]

module _ {Object : Type 0} (t : String) (scope : Bool) (cs : List (TaskCompletion Object))
    (k l : Cause Object) where
  change_same-IsRunning :
      (f : RunningActivity Object → RunningActivity Object) (w : ActivityWorker Object)
      → f (caused scope k) ≡ caused scope l
      → IsRunning t scope cs k w
      → IsRunning t scope cs l (change_running t f w)
  unfolding change_running
  change_same-IsRunning f w changes r =
      rw (change_running, r.entry)
        (record {
          sent = r.sent;
          entry =
              rw
                (
                  get-put w.running_activities t t (f (caused scope k)),
                  (string_eq.same_iff t t).1 refl,
                )
                (ap some changes);
        })

  change-IsRunning :
      (u : String) (f : RunningActivity Object → RunningActivity Object) (w : ActivityWorker Object)
      → f (caused scope k) ≡ caused scope l
      → IsRunning t scope cs k w
      → IsRunning t scope cs (if u == t then l else k) (change_running u f w)
  change-IsRunning u f w changes r = elim (Bool-cases (u == t)) [
    | inl p ↦ rw (p) (
        subst (λ v. IsRunning t scope cs l (change_running v f w))
          (sym ((string_eq.same_iff u t).0 p)) (change_same-IsRunning f w changes r))
    | inr p ↦ rw (p) (change_other-IsRunning t scope cs k u f w p r)
  ]

module _ {Object : Type 0} (c : ActivityConverter Object) (t : String) (scope : Bool)
    (cs : List (TaskCompletion Object)) (k : Cause Object) where
  start_other-IsRunning :
      (u activity_type : String) (args : Result Object (List Object)) (w : ActivityWorker Object)
      → (u == t) ≡ false
      → IsRunning t scope cs k w
      → IsRunning t scope cs k (handle_start_activity c u activity_type args w)
  unfolding handle_start_activity started_with
  start_other-IsRunning u activity_type args w other r = go (known activity_type w.activities) args
    where
      go :
          (b : Bool) (args : Result Object (List Object))
          → IsRunning t scope cs k (
              if b
              then started_with c u args w
              else send_status u
                  (failed_with_message
                    (concat "Activity type not found: " activity_type)
                    "ActivityNotFoundError")
                  w)
      go false args = send_other-IsRunning t scope cs k u _ w other r
      go true (ok _) = put_other-IsRunning t scope cs k u _ w other r
      go true (err _) =
          send_other-IsRunning t scope cs k u _ _ other
            (put_other-IsRunning t scope cs k u _ w other r)

  forget_other-IsRunning :
      (u : String) (w : ActivityWorker Object)
      → (u == t) ≡ false
      → IsRunning t scope cs k w
      → IsRunning t scope cs k (forget c u w)
  unfolding forget
  forget_other-IsRunning u w other r = record {
    sent = r.sent;
    entry = rw (get-remove w.running_activities u t, other) r.entry;
  }

  finish_other-IsRunning :
      (u : String) (r : Option (Result Object (TaskStatus Object))) (w : ActivityWorker Object)
      → (u == t) ≡ false
      → IsRunning t scope cs k w
      → IsRunning t scope cs k (finish_with c u r w).1
  unfolding finish_with
  finish_other-IsRunning u none w other i = forget_other-IsRunning u w other i
  finish_other-IsRunning u (some (ok s)) w other i =
      forget_other-IsRunning u (send_status u s w) other
        (send_other-IsRunning t scope cs k u s w other i)
  finish_other-IsRunning u (some (err e)) w other i =
      forget_other-IsRunning u (send_status u unset w) other
        (send_other-IsRunning t scope cs k u unset w other i)

  end_other-IsRunning :
      (u : String) (ended : Ended Object) (w : ActivityWorker Object)
      → (u == t) ≡ false
      → IsRunning t scope cs k w
      → IsRunning t scope cs k (happen c (end u ended) w)
  unfolding happen end_activity
  end_other-IsRunning u ended w other i = elim (Option-cases (get w.running_activities u)) [
    | inl p ↦ rw (p, happen) i
    | inr (running, p) ↦
        rw (p, happen) (finish_other-IsRunning u (status_of c running ended) w other i)
  ]

module _ {Object : Type 0} (c : ActivityConverter Object) (t : String) (scope : Bool)
    (cs : List (TaskCompletion Object)) where
  pub happens-IsRunning :
      (evs : List (TaskEvent Object)) (k : Cause Object) (w : ActivityWorker Object)
      → between t evs ≡ true
      → IsRunning t scope cs k w
      → IsRunning t scope cs (last_cause t evs k) (happens c evs w)
  unfolding happens between happen handle_cancel_activity heartbeat_failed last_cause
  happens-IsRunning [] k w p i = i
  happens-IsRunning (start u activity_type args ∷ evs) k w p i =
      let (other, rest) = elsewhere (u == t) (between t evs) p in
      happens-IsRunning evs k _ rest
        (start_other-IsRunning c t scope cs k u activity_type args w other i)
  happens-IsRunning (end u ended ∷ evs) k w p i =
      let (other, rest) = elsewhere (u == t) (between t evs) p in
      happens-IsRunning evs k (happen c (end u ended) w) rest
        (end_other-IsRunning c t scope cs k u ended w other i)
  happens-IsRunning (cancel u ∷ evs) k w p i =
      happens-IsRunning evs _ (happen c (cancel u) w) p
        (change-IsRunning t scope cs k by_request u _ w (cancel-caused scope k) i)
  happens-IsRunning (heartbeat_error u e ∷ evs) k w p i =
      happens-IsRunning evs _ (happen c (heartbeat_error u e) w) p
        (change-IsRunning t scope cs k (by_error e) u _ w (failed-caused e scope k) i)
