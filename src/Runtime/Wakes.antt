-- ===== src/Runtime/Wakes.antt =====
-- temporalio_trio/worker/_runtime.py: the pattern that timers, activities, children and external
-- requests share. A call takes the next number and waits on an event under it; a job records an
-- outcome under the number and sets the event.
use python_trio_sdk.Common.{
  ℕ, ◌+◌, ◌≤◌, ◌≡◌, true, false, none, some, if◌then◌else◌, nat_eq, ℕ_eq, arith, Option-cases, ◌⊎◌,
  inl, inr,
}
use mathlib.Core.Option
use python_trio_sdk.Common.Dict
use python_trio_sdk.Common.Dict.{Dict, get-put, get-remove}
use python_trio_sdk.Host.{Host}
use python_trio_sdk.Runtime.State.{wake}

-- An event that waits is set exactly when its outcome is recorded, and nothing waits or is recorded
-- under a number that was not given out.
pub record Wakes (h : Host) {X : Type 0} (counter : ℕ) (pending : Dict ℕ h.Event)
    (recorded : Dict ℕ X) : Type 0 where
  pub woken :
      (seq : ℕ) (e : h.Event) → Dict.get pending seq ≡ some e → h.is_set e ≡ Dict.has recorded seq
  pub pending_issued : (seq : ℕ) → Dict.has pending seq ≡ true → seq ≤ counter
  pub recorded_issued : (seq : ℕ) → Dict.has recorded seq ≡ true → seq ≤ counter

pub get-wake :
    (h : Host) (seq j : ℕ) (pending : Dict ℕ h.Event)
    → Dict.get (wake h seq pending) j
      ≡ (if nat_eq seq j then Option.map h.set (Dict.get pending j) else Dict.get pending j)
get-wake h seq j pending = elim (Option-cases (Dict.get pending seq)) [
  | inl e ↦ rw (e, wake) (ground (arith, e))
  | inr (v, e) ↦ rw (e, wake) (ground (arith, e, get-put pending seq j (h.set v)))
]

-- The event of a woken entry: the old one set, if it is the entry of the number, and else the old one.
pub wake_inv :
    (h : Host) (seq j : ℕ) (pending : Dict ℕ h.Event) (e : h.Event)
    → Dict.get (wake h seq pending) j ≡ some e
    → ((nat_eq seq j ≡ true) × (h.is_set e ≡ true))
      ⊎ ((nat_eq seq j ≡ false) × (Dict.get pending j ≡ some e))
wake_inv h seq j pending e p = elim (Option-cases (Dict.get pending j)) [
  | inl q ↦ ground (arith, q, get-wake h seq j pending)
  | inr (v, q) ↦ ground (arith, q, get-wake h seq j pending, h.is_set-set v)
]

module _ {h : Host} {X : Type 0} where
  -- A call that takes a number, and waits under it.
  pub Wakes-begin :
      (n : ℕ) (pending : Dict ℕ h.Event) (recorded : Dict ℕ X)
      → Wakes h n pending recorded
      → Wakes h (n + 1) (Dict.put pending (n + 1) h.new_event) recorded
  Wakes-begin n pending recorded w = record {
    woken = λ seq e p. ground (
      arith,
      get-put pending (n + 1) seq h.new_event,
      w.woken seq e,
      h.is_set-new,
      w.recorded_issued seq,
    );
    pending_issued =
        λ seq p. ground (arith, get-put pending (n + 1) seq h.new_event, w.pending_issued seq);
    recorded_issued = λ seq p. omega (arith, w.recorded_issued seq p);
  }

  -- A call that takes a number and does not wait.
  pub Wakes-skip :
      (n : ℕ) (pending : Dict ℕ h.Event) (recorded : Dict ℕ X)
      → Wakes h n pending recorded
      → Wakes h (n + 1) pending recorded
  Wakes-skip n pending recorded w = record {
    woken = w.woken;
    pending_issued = λ seq p. omega (arith, w.pending_issued seq p);
    recorded_issued = λ seq p. omega (arith, w.recorded_issued seq p);
  }

  -- A wait under a number that is already given out and has no outcome yet.
  pub Wakes-again :
      (n seq : ℕ) (pending : Dict ℕ h.Event) (recorded : Dict ℕ X)
      → seq ≤ n
      → Dict.get recorded seq ≡ none
      → Wakes h n pending recorded
      → Wakes h n (Dict.put pending seq h.new_event) recorded
  Wakes-again n seq pending recorded issued open_yet w = record {
    woken = λ j e p.
        ground (arith, get-put pending seq j h.new_event, w.woken j e, h.is_set-new, open_yet);
    pending_issued = λ j p. ground (arith, get-put pending seq j h.new_event, w.pending_issued j);
    recorded_issued = w.recorded_issued;
  }

  -- A waiter that goes on, and takes its entry out.
  pub Wakes-remove :
      (n seq : ℕ) (pending : Dict ℕ h.Event) (recorded : Dict ℕ X)
      → Wakes h n pending recorded
      → Wakes h n (Dict.remove pending seq) recorded
  Wakes-remove n seq pending recorded w = record {
    woken = λ j e p. ground (arith, get-remove pending seq j, w.woken j e);
    pending_issued = λ j p. ground (arith, get-remove pending seq j, w.pending_issued j);
    recorded_issued = w.recorded_issued;
  }

  -- A job that records an outcome and sets the event.
  pub Wakes-resolve :
      (n seq : ℕ) (x : X) (pending : Dict ℕ h.Event) (recorded : Dict ℕ X)
      → seq ≤ n
      → Wakes h n pending recorded
      → Wakes h n (wake h seq pending) (Dict.put recorded seq x)
  Wakes-resolve n seq x pending recorded issued w = record {
    woken = λ j e p.
        ground (arith, wake_inv h seq j pending e p, get-put recorded seq j x, w.woken j e);
    pending_issued = λ j p. ground (arith, get-wake h seq j pending, w.pending_issued j);
    recorded_issued = λ j p. ground (arith, get-put recorded seq j x, w.recorded_issued j);
  }
