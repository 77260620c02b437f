-- ===== src/Worker/Runs.antt =====
-- temporalio_trio/worker/_single_thread_worker.py: what `_dispatch_activation` does to the runs.
use python_trio_sdk.Common.{
  ◌≡◌, ◌≢◌, refl, ap, ◌∙◌, Bool, true, false, some, none, ◌⊎◌, ◌==◌, String, List, [], ◌∷◌, ◌++◌,
  inl, inr, Option-cases, Bool-cases, arith, is_some, string_eq, eq_iff, if◌then◌else◌, ◌&&◌,
}
use mathlib.Core.Option
use python_trio_sdk.Common.Dict
use python_trio_sdk.Common.Dict.{Dict, get, get-put, get-remove}
use python_trio_sdk.Host.{Host, Exception, Result, ok, err, cancelled}
use python_trio_sdk.Activation.{WorkflowActivation, Command}
use python_trio_sdk.Worker.State.{WorkflowState}
use python_trio_sdk.Worker.Code.{Code, Settings}
use python_trio_sdk.Worker.Task.{started_job}
use python_trio_sdk.Worker.Dispatch.{
  Worker, extract_run_id, dispatch_activation, dispatch_run, dispatch_cached, dispatch_known,
  dispatch_new, finish, evict, send_completion, cancel_run, cancel_runs, crash, await_commands,
}

module _ {h : Host} where
  -- The state of another run is as before, or the worker has crashed and cancelled it.
  abbrev pub IsKept :
      Code h → (other : String) → Worker h → Result h.Object (Unit {0}) × Worker h → Type 0
  IsKept code other before r =
      ((r.1.crashed ≡ before.crashed)
        × (Dict.get r.1.workflow_states other ≡ Dict.get before.workflow_states other))
      ⊎ ((e : Exception h.Object) × (r.1.crashed ≡ some e)
          × (r.0 ≡ err cancelled)
          × (Dict.get r.1.workflow_states other
              ≡ Option.map (cancel_run code) (Dict.get before.workflow_states other)))

  -- What a dispatch does besides the state of its own run: the other runs keep their states unless the
  -- worker crashes, and it sends one completion for the run, or none where it raises.
  record Dispatched (code : Code h) (run_id : String) (before : Worker h)
      (r : Result h.Object (Unit {0}) × Worker h) : Type 0 where
    others : (other : String) → run_id ≢ other → IsKept code other before r
    answered :
        r.0 ≡ ok tt
        → (cs : List (Command h.Object)) × (r.1.completions
            ≡ before.completions ++ record { run_id = run_id; commands = cs } ∷ [])

  finish-Dispatched :
      (code : Code h) (run_id : String)
      (r : Result h.Object (List (Command h.Object)) × WorkflowState h) (worker : Worker h)
      → Dispatched code run_id worker (finish run_id r worker)
  unfolding finish
  finish-Dispatched code run_id (ok cs, state) worker = record {
    others = λ other ne. inl (
      refl,
      ground (arith, get-put worker.workflow_states run_id other state, eq_iff run_id other, ne),
    );
    answered = λ p. (cs, refl);
  }
  finish-Dispatched code run_id (err e, state) worker = record {
    others = λ other ne. inl (
      refl,
      ground (arith, get-put worker.workflow_states run_id other state, eq_iff run_id other, ne),
    );
    answered = λ p. absurd (ground (arith, p));
  }

  sent-Dispatched :
      (code : Code h) (run_id : String) (cs : List (Command h.Object)) (worker : Worker h)
      → Dispatched code run_id worker (ok tt, send_completion run_id cs worker)
  unfolding send_completion
  sent-Dispatched code run_id cs worker = record {
    others = λ other ne. inl (refl, refl);
    answered = λ p. (cs, refl);
  }

  evict-Dispatched :
      (code : Code h) (run_id : String) (worker : Worker h)
      → Dispatched code run_id worker (ok tt, evict run_id worker)
  unfolding evict
  evict-Dispatched code run_id worker = record {
    others = λ other ne. inl (
      refl,
      ground (arith, get-remove worker.workflow_states run_id other, eq_iff run_id other, ne),
    );
    answered = λ p. ([], refl);
  }

module _ {h : Host} (code : Code h) where
  get-cancel_runs :
      (states : Dict String (WorkflowState h)) (run_id : String)
      → Dict.get (cancel_runs code states) run_id
        ≡ Option.map (cancel_run code) (Dict.get states run_id)
  unfolding cancel_runs get
  get-cancel_runs [] run_id = refl
  get-cancel_runs ((other, state) ∷ states) run_id = elim (Bool-cases (other == run_id)) [
    | inl q ↦ rw (q) refl
    | inr q ↦ rw (q) (get-cancel_runs states run_id)
  ]

  await_commands-Dispatched :
      (run_id : String) (r : Result h.Object (WorkflowState h)) (state : WorkflowState h)
      (worker : Worker h)
      → Dispatched code run_id worker (await_commands code run_id r state worker)
  unfolding await_commands crash
  await_commands-Dispatched run_id (ok state') state worker = finish-Dispatched code run_id _ worker
  await_commands-Dispatched run_id (err e) state worker = record {
    others = λ other ne. inr (
      e,
      refl,
      refl,
      ground (
        arith,
        get-put (cancel_runs code worker.workflow_states) run_id other state,
        eq_iff run_id other,
        ne,
      )
          ∙ get-cancel_runs worker.workflow_states other,
    );
    answered = λ p. absurd (ground (arith, p));
  }

module _ {h : Host} (code : Code h) (settings : Settings) where
  dispatch_known-Dispatched :
      (run_id : String) (state : WorkflowState h) (activation : WorkflowActivation h.Object)
      (worker : Worker h)
      → Dispatched code run_id worker (dispatch_known code settings run_id state activation worker)
  unfolding dispatch_known
  dispatch_known-Dispatched run_id state activation worker = elim (Bool-cases state.is_complete) [
    | inl q ↦ rw (q, dispatch_known) (finish-Dispatched code run_id _ worker)
    | inr q ↦ rw (q, dispatch_known) (await_commands-Dispatched code run_id _ _ worker)
  ]

  dispatch_cached-Dispatched :
      (run_id : String) (state : WorkflowState h) (activation : WorkflowActivation h.Object)
      (worker : Worker h)
      → Dispatched code run_id worker (dispatch_cached code settings run_id state activation worker)
  unfolding dispatch_cached
  dispatch_cached-Dispatched run_id state activation worker =
      elim (Bool-cases (is_some (started_job activation.jobs) && state.is_complete)) [
        | inl q ↦ rw (q, dispatch_cached) (sent-Dispatched code run_id _ worker)
        | inr q ↦ rw (q, dispatch_cached) (dispatch_known-Dispatched run_id state activation worker)
      ]

  dispatch_new-Dispatched :
      (run_id : String) (activation : WorkflowActivation h.Object) (worker : Worker h)
      → Dispatched code run_id worker (dispatch_new code settings run_id activation worker)
  unfolding dispatch_new
  dispatch_new-Dispatched run_id activation worker =
      await_commands-Dispatched code run_id _ _ worker

  dispatch_run-Dispatched :
      (run_id : String) (activation : WorkflowActivation h.Object) (worker : Worker h)
      → Dispatched code run_id worker (dispatch_run code settings run_id activation worker)
  unfolding dispatch_run
  dispatch_run-Dispatched run_id activation worker =
      elim (Option-cases (Dict.get worker.workflow_states run_id)) [
        | inl q ↦ elim (Bool-cases (is_some (started_job activation.jobs))) [
          | inl s ↦ rw (q, s, dispatch_run) (dispatch_new-Dispatched run_id activation worker)
          | inr s ↦ rw (q, s, dispatch_run) (sent-Dispatched code run_id [] worker)
        ]
        | inr (state, q) ↦
            rw (q, dispatch_run) (dispatch_cached-Dispatched run_id state activation worker)
      ]

  activation-Dispatched :
      (fallback run_id : String) (activation : WorkflowActivation h.Object) (worker : Worker h)
      → extract_run_id fallback activation ≡ ok run_id
      → Dispatched code run_id worker (dispatch_activation code settings fallback activation worker)
  unfolding dispatch_activation
  activation-Dispatched fallback run_id activation worker p =
      rw (p, dispatch_activation) (go activation.remove_from_cache)
    where
      go :
          (b : Bool)
          → Dispatched code run_id worker (
              if b
              then (ok tt, evict run_id worker)
              else dispatch_run code settings run_id activation worker)
      go true = evict-Dispatched code run_id worker
      go false = dispatch_run-Dispatched run_id activation worker

  pub dispatch_activation-if :
      (fallback run_id : String) (activation : WorkflowActivation h.Object) (worker : Worker h)
      (b : Bool)
      → extract_run_id fallback activation ≡ ok run_id
      → activation.remove_from_cache ≡ b
      → dispatch_activation code settings fallback activation worker ≡ (
          if b
          then (ok tt, evict run_id worker)
          else dispatch_run code settings run_id activation worker)
  unfolding dispatch_activation
  dispatch_activation-if fallback run_id activation worker b p q =
      rw (p, dispatch_activation)
        (ap
          (λ b.
            if b
            then (ok tt, evict run_id worker)
            else dispatch_run code settings run_id activation worker)
          q)

  dispatch_run-unknown :
      (run_id : String) (activation : WorkflowActivation h.Object) (worker : Worker h)
      → Dict.get worker.workflow_states run_id ≡ none
      → is_some (started_job activation.jobs) ≡ false
      → dispatch_run code settings run_id activation worker
        ≡ (ok tt, send_completion run_id [] worker)
  unfolding dispatch_run
  dispatch_run-unknown run_id activation worker p q = rw (p, q, dispatch_run) refl

  -- Whatever the activation's jobs, the workflow's code and the states of the runs: an activation whose
  -- dispatch raises nothing is answered by exactly one completion, for its run and behind all earlier
  -- ones.
  pub one_completion_per_activation :
      (fallback run_id : String) (activation : WorkflowActivation h.Object) (worker : Worker h)
      → extract_run_id fallback activation ≡ ok run_id
      → (dispatch_activation code settings fallback activation worker).0 ≡ ok tt
      → (cs : List (Command h.Object)) × ((dispatch_activation code settings fallback activation
            worker).1.completions
          ≡ worker.completions ++ record { run_id = run_id; commands = cs } ∷ [])
  one_completion_per_activation fallback run_id activation worker p =
      (activation-Dispatched fallback run_id activation worker p).answered

  -- After an eviction the worker does not know the run, and an activation for it that starts no
  -- workflow is answered by an empty completion and changes no state.
  pub evicted_run_is_unknown :
      (fallback run_id : String) (eviction later : WorkflowActivation h.Object) (worker : Worker h)
      → extract_run_id fallback eviction ≡ ok run_id
      → eviction.remove_from_cache ≡ true
      → extract_run_id fallback later ≡ ok run_id
      → later.remove_from_cache ≡ false
      → is_some (started_job later.jobs) ≡ false
      → let evicted = (dispatch_activation code settings fallback eviction worker).1 in
        (Dict.get evicted.workflow_states run_id ≡ none)
        × (dispatch_activation code settings fallback later evicted
            ≡ (ok tt, send_completion run_id [] evicted))
  unfolding evict send_completion
  evicted_run_is_unknown fallback run_id eviction later worker p q r s t =
      let gone : Dict.get (evict run_id worker).workflow_states run_id ≡ none =
        ground (arith, get-remove worker.workflow_states run_id run_id, eq_iff run_id run_id) in
      rw (dispatch_activation-if fallback run_id eviction worker true p q) (
        gone,
        dispatch_activation-if fallback run_id later (evict run_id worker) false r s
            ∙ dispatch_run-unknown run_id later (evict run_id worker) gone t,
      )
