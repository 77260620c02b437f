-- ===== src/AsyncBridge/Phases.antt =====
-- temporalio_trio/_async_bridge.py: the lifecycle of a wrapper as an abstract machine of four phases.
use python_trio_sdk.Common.{
  ◌≡◌, refl, sym, subst, Bool, true, false, String, Option, none, some, List, [], ◌∷◌,
  if◌then◌else◌, Option-cases, arith, ℕ, inl, inr,
}
use python_trio_sdk.Host.{runtime_error}
use python_trio_sdk.AsyncBridge.State.{
  Bytes, BridgeState, not_started, running, TrioBridgeWrapper, Answer, refused, replied, silent,
  refusal, taken, new_wrapper,
}
use python_trio_sdk.AsyncBridge.State
use python_trio_sdk.AsyncBridge.Prefix.{Utf8, worker_bytes}
use python_trio_sdk.AsyncBridge.Json.{Dumps}
use python_trio_sdk.AsyncBridge.Shutdown
use python_trio_sdk.AsyncBridge.Shutdown.{
  is_shutting_down, try_send, initiate_bridge, send_finalize, after_wait, closed,
}
use python_trio_sdk.AsyncBridge.Calls.{
  Call, call, calls, start, set_trio_token, operation, initiate_shutdown, finalize_shutdown,
  shutdown,
}
use python_trio_sdk.AsyncBridge.Effects.{
  Effect, kept, sent, drains, operate-Effect, try_send-Effect,
}

pub data Phase : Type 0 where
  idle live draining ended : Phase

-- The abstract machine: a bridge is started, shuts down, and ends; a bridge that was never started can
-- be shut down too.
pub data Advance : Phase → Phase → Type 0 where
  stay : {p : Phase} → Advance p p
  begin : Advance idle live
  give_up : Advance idle draining
  stop : Advance live draining
  finish : Advance draining ended
  then_ : {p q r : Phase} → Advance p q → Advance q r → Advance p r

unfoldable pub phase_of : BridgeState → (finalized : Bool) → Phase
phase_of not_started _ = idle
phase_of running _ = live
phase_of State.shutdown false = draining
phase_of State.shutdown true = ended

abbrev pub phase : TrioBridgeWrapper → Phase
phase w = phase_of w.state w.shutdown_finalized

-- The flags agree: a finalized wrapper is shut down, and a closed bridge is finalized.
unfoldable pub agree : BridgeState → (finalized closed : Bool) → Bool
agree State.shutdown true _ = true
agree State.shutdown false c = if c then false else true
agree _ true _ = false
agree _ false c = if c then false else true

abbrev pub IsOrderly : TrioBridgeWrapper → Type 0
IsOrderly w = agree w.state w.shutdown_finalized w.closed ≡ true

-- What a call may do, seen from the abstract machine.
Refines : TrioBridgeWrapper → TrioBridgeWrapper → Type 0
Refines w v = Advance (phase w) (phase v) × IsOrderly v

trans-Refines : (w v x : TrioBridgeWrapper) → Refines w v → Refines v x → Refines w x
unfolding Refines
trans-Refines w v x (a, _) (b, o) = (then_ a b, o)

Effect-Refines : {w v : TrioBridgeWrapper} → IsOrderly w → Effect w v → Refines w v
unfolding Refines taken
Effect-Refines o kept = (stay, o)
Effect-Refines o (sent op payload _ _) = (stay, o)

start_from-Refines :
    (Object : Type 0) (s : BridgeState) (w : TrioBridgeWrapper)
    → w.state ≡ s
    → IsOrderly w
    → Refines w (State.start_from {Object = Object} s w).1
unfolding Refines State.start_from agree phase_of
start_from-Refines Object not_started w p o =
    begins w.shutdown_finalized w.closed
      (subst (λ s. agree s w.shutdown_finalized w.closed ≡ true) p o)
  where
    begins :
        (f c : Bool)
        → agree not_started f c ≡ true
        → Advance (phase_of w.state f) (phase_of running f) × (agree running f c ≡ true)
    begins false false q = (subst (λ s. Advance (phase_of s false) live) (sym p) begin, refl)
    begins false true q = absurd (ground (arith, q))
    begins true _ q = absurd (ground (arith, q))
start_from-Refines Object running w p o = (stay, o)
start_from-Refines Object State.shutdown w p o = (stay, o)

stops :
    (s : BridgeState) (f c : Bool)
    → agree s f c ≡ true
    → Advance (phase_of s f) (phase_of State.shutdown f) × (agree State.shutdown f c ≡ true)
unfolding agree phase_of
stops not_started false false q = (give_up, refl)
stops running false false q = (stop, refl)
stops not_started false true q = absurd (ground (arith, q))
stops running false true q = absurd (ground (arith, q))
stops not_started true _ q = absurd (ground (arith, q))
stops running true _ q = absurd (ground (arith, q))
stops State.shutdown f c q = (stay, q)

ends :
    (f c : Bool)
    → Advance (phase_of State.shutdown f) (phase_of State.shutdown true)
      × (agree State.shutdown true c ≡ true)
unfolding agree phase_of
ends false c = (finish, refl)
ends true c = (stay, refl)

stop-Refines :
    {w v : TrioBridgeWrapper}
    → IsOrderly w
    → Effect w v
    → Refines w (record v { state = State.shutdown })
unfolding Refines taken
stop-Refines {w = w} o kept = stops w.state w.shutdown_finalized w.closed o
stop-Refines {w = w} o (sent op payload _ _) = stops w.state w.shutdown_finalized w.closed o

-- `initiate_shutdown` of the whole bridge.
initiate_bridge-Refines :
    (answer : Answer) (w : TrioBridgeWrapper)
    → IsOrderly w
    → Refines w (initiate_bridge answer w) × ((initiate_bridge answer w).state ≡ State.shutdown)
unfolding initiate_bridge is_shutting_down drains Refines
initiate_bridge-Refines answer w o = go w.state refl
  where
    go :
        (s : BridgeState)
        → w.state ≡ s
        → let v =
            if is_shutting_down s
            then w
            else record (try_send "initiate_shutdown" [] answer w) { state = State.shutdown } in
          Refines w v × (v.state ≡ State.shutdown)
    go not_started p = (stop-Refines o (try_send-Effect "initiate_shutdown" [] answer w refl), refl)
    go running p = (stop-Refines o (try_send-Effect "initiate_shutdown" [] answer w refl), refl)
    go State.shutdown p = ((stay, o), p)

after_wait-Refines :
    (Object : Type 0) (whole : Bool) (timeout : Option ℕ) (answer : Answer) (w : TrioBridgeWrapper)
    → IsOrderly w
    → (whole ≡ true → w.state ≡ State.shutdown)
    → Refines w (after_wait {Object = Object} whole timeout answer w).1
unfolding after_wait closed Refines
after_wait-Refines Object whole timeout (refused m) w o p = (stay, o)
after_wait-Refines Object whole timeout silent w o p = (stay, o)
after_wait-Refines Object false timeout (replied r) w o p = (stay, o)
after_wait-Refines Object true timeout (replied r) w o p =
    subst
      (λ s.
        Advance (phase_of s w.shutdown_finalized) (phase_of s true) × (agree s true true ≡ true))
      (sym (p refl)) (ends w.shutdown_finalized true)

send_finalize-Refines :
    (Object : Type 0) (is_known : String → Bool) (whole : Bool) (payload : Bytes)
    (timeout : Option ℕ) (answer : Answer) (w : TrioBridgeWrapper)
    → IsOrderly w
    → (whole ≡ true → w.state ≡ State.shutdown)
    → Refines w (send_finalize {Object = Object} is_known whole payload timeout answer w).1
unfolding send_finalize taken Refines
send_finalize-Refines Object is_known whole payload timeout answer w o p =
    elim (Option-cases (refusal answer w)) [
      | inl q ↦
          rw (q, send_finalize)
            (after_wait-Refines Object whole timeout answer (taken "finalize_shutdown" payload w) o
              p)
      | inr (m, q) ↦ rw (q, send_finalize) (go m (is_known m) whole p)
    ]
  where
    go :
        (m : String) (known whole : Bool)
        → (whole ≡ true → w.state ≡ State.shutdown)
        → Refines w
            (if◌then◌else◌ {A = State.Ending Object (Unit {0}) × TrioBridgeWrapper} known
              (State.returned tt, if whole then record w { shutdown_finalized = true } else w)
              (State.raised (runtime_error m), w)).1
    go m true true p =
        subst
          (λ s.
            Advance (phase_of s w.shutdown_finalized) (phase_of s true)
            × (agree s true w.closed ≡ true))
          (sym (p refl)) (ends w.shutdown_finalized w.closed)
    go m true false p = (stay, o)
    go m false _ p = (stay, o)

module _ {Object : Type 0} (u : Utf8) (dumps : Dumps Object) (is_known : String → Bool) where
  finalize-Refines :
      (worker_id : Option String) (timeout : Option ℕ) (first second : Answer)
      (w : TrioBridgeWrapper)
      → IsOrderly w
      → Refines w
          (Shutdown.finalize_shutdown {Object = Object} u is_known worker_id timeout first second
            w).1
  unfolding Shutdown.finalize_shutdown Refines
  finalize-Refines (some worker_id) timeout first second w o =
      send_finalize-Refines Object is_known false (worker_bytes u (some worker_id)) timeout second w
        o λ q. absurd (ground (arith, q))
  finalize-Refines none timeout first second w o = go w.shutdown_finalized
    where
      go :
          (f : Bool)
          → Refines w
              (if◌then◌else◌ {A = State.Ending Object (Unit {0}) × TrioBridgeWrapper} f
                (State.returned tt, w)
                (send_finalize is_known true [] timeout second (initiate_bridge first w))).1
      go true = (stay, o)
      go false =
          let (r, shut) = initiate_bridge-Refines first w o in
          trans-Refines w (initiate_bridge first w)
            (send_finalize {Object = Object} is_known true [] timeout second
              (initiate_bridge first w)).1
            r
            (send_finalize-Refines Object is_known true [] timeout second (initiate_bridge first w)
              r.1 λ _. shut)

  initiate-Refines :
      (worker_id : Option String) (answer : Answer) (w : TrioBridgeWrapper)
      → IsOrderly w
      → Refines w (Shutdown.initiate_shutdown u worker_id answer w)
  unfolding Shutdown.initiate_shutdown drains
  initiate-Refines none answer w o = (initiate_bridge-Refines answer w o).0
  initiate-Refines (some worker_id) answer w o =
      Effect-Refines o
        (try_send-Effect "initiate_shutdown" (worker_bytes u (some worker_id)) answer w refl)

  call-Refines :
      (c : Call Object) (first second : Answer) (w : TrioBridgeWrapper)
      → IsOrderly w
      → Refines w (call u dumps is_known c first second w)
  unfolding call State.start State.set_trio_token Shutdown.shutdown Refines
  call-Refines start first second w o = start_from-Refines Object w.state w refl o
  call-Refines set_trio_token first second w o = (stay, o)
  call-Refines (operation op) first second w o =
      Effect-Refines o (operate-Effect u dumps is_known op first w)
  call-Refines (initiate_shutdown worker_id) first second w o = initiate-Refines worker_id first w o
  call-Refines (finalize_shutdown worker_id timeout) first second w o =
      finalize-Refines worker_id timeout first second w o
  call-Refines (shutdown timeout) first second w o =
      let r = initiate-Refines none first w o in
      let v = Shutdown.initiate_shutdown u none first w in
      trans-Refines w v
        (Shutdown.finalize_shutdown {Object = Object} u is_known none timeout first second v).1 r
        (finalize-Refines none timeout first second v r.1)

  -- Every sequence of calls, whatever the bridge answers, takes the wrapper along the abstract machine:
  -- from idle to live or draining, from live to draining, from draining to ended, and never back; and
  -- its flags go on agreeing: a finalized wrapper is shut down, and a closed bridge is finalized.
  pub calls_refine_phases :
      (cs : List (Call Object × Answer × Answer)) (w : TrioBridgeWrapper)
      → IsOrderly w
      → Advance (phase w) (phase (calls u dumps is_known cs w))
        × IsOrderly (calls u dumps is_known cs w)
  unfolding calls Refines
  calls_refine_phases [] w o = (stay, o)
  calls_refine_phases ((c, first, second) ∷ cs) w o =
      let r = call-Refines c first second w o in
      let rest = calls_refine_phases cs (call u dumps is_known c first second w) r.1 in
      (then_ r.0 rest.0, rest.1)
