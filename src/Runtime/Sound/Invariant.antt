-- ===== src/Runtime/Sound/Invariant.antt =====
-- temporalio_trio/worker/_runtime.py: the invariant of a run, a part for each kind of
-- request.
use python_trio_sdk.Common.{Bool, false, ◌||◌, ◌≡◌, ◌⊎◌, true, some, ℕ, ◌≤◌, String, ℕ_eq}
use python_trio_sdk.Common.Dict
use python_trio_sdk.Common.Dict.{Dict}
use python_trio_sdk.Host.{Host}
use python_trio_sdk.Runtime.State.{WorkflowRuntime}
use python_trio_sdk.Runtime.Wakes.{Wakes}

-- The events of children that have not started: set exactly when the child has started or, as after a
-- start that failed, has an outcome. An outcome sets it too, where `strict` says that no child has its
-- result before its start.
pub record Starts (h : Host) (strict : Bool) {X : Type 0} (counter : ℕ) (pending : Dict ℕ h.Event)
    (started : Dict ℕ String) (recorded : Dict ℕ X) : Type 0 where
  pub started_woken :
      (seq : ℕ) (e : h.Event)
      → Dict.get pending seq ≡ some e
      → Dict.has started seq ≡ true
      → h.is_set e ≡ true
  pub woken_started :
      (seq : ℕ) (e : h.Event)
      → Dict.get pending seq ≡ some e
      → h.is_set e ≡ true
      → (Dict.has started seq ≡ true) ⊎ (Dict.has recorded seq ≡ true)
  pub recorded_woken :
      strict ≡ true
      → (seq : ℕ) (e : h.Event) → Dict.get pending seq ≡ some e
      → Dict.has recorded seq ≡ true
      → h.is_set e ≡ true
  pub started_issued : (seq : ℕ) → Dict.has started seq ≡ true → seq ≤ counter
  pub pending_issued : (seq : ℕ) → Dict.has pending seq ≡ true → seq ≤ counter

pub record IsSoundWhen (strict : Bool) {h : Host} (rt : WorkflowRuntime h) : Type 0 where
  pub timers : Wakes h rt.timer_seq rt.pending_timers rt.fired_timers
  pub activities : Wakes h rt.activity_seq rt.pending_activities rt.completed_activities
  pub children : Wakes h rt.child_workflow_seq rt.pending_children rt.completed_children
  pub starts :
      Starts h strict rt.child_workflow_seq rt.pending_child_starts rt.started_children
        rt.completed_children
  pub signals :
      Wakes h rt.signal_external_seq rt.pending_external_signals rt.completed_external_signals
  pub cancels :
      Wakes h rt.cancel_external_seq rt.pending_external_cancels rt.completed_external_cancels

abbrev pub IsSound : {h : Host} → WorkflowRuntime h → Type 0
IsSound rt = IsSoundWhen false rt

-- The event of a child start that waits is set exactly when the child has started or has an outcome.
pub record StartsWoken {h : Host} (rt : WorkflowRuntime h) : Type 0 where
  pub woken :
      (seq : ℕ) (e : h.Event)
      → Dict.get rt.pending_child_starts seq ≡ some e
      → (h.is_set e ≡ (Dict.has rt.started_children seq || Dict.has rt.completed_children seq))
