-- ===== src/AsyncBridge/Draining.antt =====
-- temporalio_trio/_async_bridge.py: the lifecycle of a wrapper, once it shuts down.
use python_trio_sdk.Common.{
  ◌≡◌, refl, ap, sym, ◌∙◌, subst, Bool, true, false, String, Option, none, some, List, [], ◌∷◌,
  ◌++◌, ◌&&◌, ◌⊎◌, inl, inr, if◌then◌else◌, Option-cases, arith, ℕ,
}
use python_trio_sdk.Host.{runtime_error}
use python_trio_sdk.AsyncBridge.State.{
  Bytes, BridgeState, not_started, running, Request, TrioBridgeWrapper, Answer, refused, replied,
  silent, refusal, taken,
}
use python_trio_sdk.AsyncBridge.State
use python_trio_sdk.AsyncBridge.Prefix.{Utf8, worker_bytes}
use python_trio_sdk.AsyncBridge.Json.{Dumps}
use python_trio_sdk.AsyncBridge.Shutdown
use python_trio_sdk.AsyncBridge.Shutdown.{
  is_shutting_down, try_send, initiate_bridge, send_finalize, after_wait, closed,
}
use python_trio_sdk.AsyncBridge.Calls.{
  Call, call, calls, start, set_trio_token, operation, initiate_shutdown, finalize_shutdown,
  shutdown,
}
use python_trio_sdk.AsyncBridge.Effects.{
  Effect, kept, sent, drains, operate-Effect, try_send-Effect, not_refused-open,
}
use mathlib.Core.List.{append_assoc, append-nil}

unfoldable pub all_drain : List Request → Bool
all_drain [] = true
all_drain (r ∷ rs) = drains r.operation && all_drain rs

and_parts : (a b : Bool) → (a && b) ≡ true → (a ≡ true) × (b ≡ true)
and_parts a b p = ground (arith, p)

and_true : (a b : Bool) → a ≡ true → b ≡ true → (a && b) ≡ true
and_true a b p q = ground (arith, p, q)

all_drain-++ :
    (rs ts : List Request) → all_drain rs ≡ true → all_drain ts ≡ true → all_drain (rs ++ ts) ≡ true
unfolding all_drain
all_drain-++ [] ts p q = q
all_drain-++ (r ∷ rs) ts p q =
    let (first, rest) = and_parts (drains r.operation) (all_drain rs) p in
    and_true (drains r.operation) (all_drain (rs ++ ts)) first (all_drain-++ rs ts rest q)

-- From the first wrapper to the second only requests that drain were taken, and none once the Rust
-- bridge was closed; and the second is shutting down.
pub record Drained (w w' : TrioBridgeWrapper) : Type 0 where
  pub shutting_down : w'.state ≡ State.shutdown
  pub more : List Request
  pub taken_more : w'.requests ≡ w.requests ++ more
  pub more_drain : all_drain more ≡ true
  pub none_if_closed : w.closed ≡ true → (more ≡ []) × (w'.closed ≡ true)

same-Drained :
    (w w' : TrioBridgeWrapper)
    → w'.state ≡ State.shutdown
    → w'.requests ≡ w.requests
    → (w.closed ≡ true → w'.closed ≡ true)
    → Drained w w'
unfolding all_drain
same-Drained w w' s r c = record {
  shutting_down = s;
  more = [];
  taken_more = r ∙ sym (append-nil w.requests);
  more_drain = refl;
  none_if_closed = λ p. (refl, c p);
}

trans-Drained : (w v x : TrioBridgeWrapper) → Drained w v → Drained v x → Drained w x
trans-Drained w v x d e = record {
  shutting_down = e.shutting_down;
  more = d.more ++ e.more;
  taken_more =
      e.taken_more ∙ (ap (λ rs. rs ++ e.more) d.taken_more ∙ append_assoc w.requests d.more e.more);
  more_drain = all_drain-++ d.more e.more d.more_drain e.more_drain;
  none_if_closed = λ p.
      let (q, r) = d.none_if_closed p in let (s, t) = e.none_if_closed r in (rw (q, s) refl, t);
}

Effect-Drained : {w w' : TrioBridgeWrapper} → w.state ≡ State.shutdown → Effect w w' → Drained w w'
unfolding taken all_drain
Effect-Drained p kept = same-Drained _ _ p refl λ c. c
Effect-Drained {w = w} p (sent op payload unclosed allowed) = record {
  shutting_down = p;
  more = record { operation = op; payload = payload } ∷ [];
  taken_more = refl;
  more_drain = go allowed;
  none_if_closed = λ c. absurd (ground (arith, c, unclosed));
}
  where
    go : (w.state ≡ running) ⊎ (drains op ≡ true) → (drains op && true) ≡ true
    go (inl r) = absurd (ground (arith, p, r))
    go (inr q) = and_true (drains op) true q refl

-- The bridge-level part of `finalize_shutdown`, and that of a worker.
after_wait-Drained :
    (Object : Type 0) (whole : Bool) (timeout : Option ℕ) (answer : Answer) (w : TrioBridgeWrapper)
    → w.state ≡ State.shutdown
    → Drained w (after_wait {Object = Object} whole timeout answer w).1
unfolding after_wait closed
after_wait-Drained Object whole timeout (refused m) w p = same-Drained w w p refl λ c. c
after_wait-Drained Object whole timeout silent w p = same-Drained w w p refl λ c. c
after_wait-Drained Object true timeout (replied r) w p = same-Drained w _ p refl λ _. refl
after_wait-Drained Object false timeout (replied r) w p = same-Drained w w p refl λ c. c

send_finalize-Drained :
    (Object : Type 0) (is_known : String → Bool) (whole : Bool) (payload : Bytes)
    (timeout : Option ℕ) (answer : Answer) (w : TrioBridgeWrapper)
    → w.state ≡ State.shutdown
    → Drained w (send_finalize {Object = Object} is_known whole payload timeout answer w).1
unfolding send_finalize drains taken
send_finalize-Drained Object is_known whole payload timeout answer w p =
    elim (Option-cases (refusal answer w)) [
      | inl q ↦
          rw (q, send_finalize)
            (trans-Drained w (taken "finalize_shutdown" payload w) _
              (Effect-Drained p
                (sent "finalize_shutdown" payload (not_refused-open answer w q) (inr refl)))
              (after_wait-Drained Object whole timeout answer (taken "finalize_shutdown" payload w)
                p))
      | inr (m, q) ↦ rw (q, send_finalize) (go m (is_known m) whole)
    ]
  where
    go :
        (m : String) (known whole : Bool)
        → Drained w
            (if◌then◌else◌ {A = State.Ending Object (Unit {0}) × TrioBridgeWrapper} known
              (State.returned tt, if whole then record w { shutdown_finalized = true } else w)
              (State.raised (runtime_error m), w)).1
    go m true true = same-Drained w _ p refl λ c. c
    go m true false = same-Drained w w p refl λ c. c
    go m false _ = same-Drained w w p refl λ c. c

start-kept :
    (Object : Type 0) (w : TrioBridgeWrapper)
    → w.state ≡ State.shutdown
    → (State.start {Object = Object} w).1 ≡ w
unfolding State.start State.start_from
start-kept Object w p = ap (λ s. (State.start_from {Object = Object} s w).1) p

initiate_bridge-kept :
    (answer : Answer) (w : TrioBridgeWrapper)
    → w.state ≡ State.shutdown
    → initiate_bridge answer w ≡ w
unfolding initiate_bridge is_shutting_down
initiate_bridge-kept answer w p = rw (p, is_shutting_down) refl

module _ {Object : Type 0} (u : Utf8) (dumps : Dumps Object) (is_known : String → Bool) where
  finalize-Drained :
      (worker_id : Option String) (timeout : Option ℕ) (first second : Answer)
      (w : TrioBridgeWrapper)
      → w.state ≡ State.shutdown
      → Drained w
          (Shutdown.finalize_shutdown {Object = Object} u is_known worker_id timeout first second
            w).1
  unfolding Shutdown.finalize_shutdown
  finalize-Drained (some worker_id) timeout first second w p =
      send_finalize-Drained Object is_known false (worker_bytes u (some worker_id)) timeout second w
        p
  finalize-Drained none timeout first second w p = go w.shutdown_finalized
    where
      go :
          (f : Bool)
          → Drained w
              (if◌then◌else◌ {A = State.Ending Object (Unit {0}) × TrioBridgeWrapper} f
                (State.returned tt, w)
                (send_finalize is_known true [] timeout second (initiate_bridge first w))).1
      go true = same-Drained w w p refl λ c. c
      go false =
          subst
            (λ v. Drained w (send_finalize {Object = Object} is_known true [] timeout second v).1)
            (sym (initiate_bridge-kept first w p))
            (send_finalize-Drained Object is_known true [] timeout second w p)

  initiate-Drained :
      (worker_id : Option String) (answer : Answer) (w : TrioBridgeWrapper)
      → w.state ≡ State.shutdown
      → Drained w (Shutdown.initiate_shutdown u worker_id answer w)
  unfolding Shutdown.initiate_shutdown drains
  initiate-Drained none answer w p =
      subst (λ v. Drained w v) (sym (initiate_bridge-kept answer w p))
        (same-Drained w w p refl λ c. c)
  initiate-Drained (some worker_id) answer w p =
      Effect-Drained p
        (try_send-Effect "initiate_shutdown" (worker_bytes u (some worker_id)) answer w refl)

  call-Drained :
      (c : Call Object) (first second : Answer) (w : TrioBridgeWrapper)
      → w.state ≡ State.shutdown
      → Drained w (call u dumps is_known c first second w)
  unfolding call State.set_trio_token Shutdown.shutdown
  call-Drained start first second w p =
      subst (λ v. Drained w v) (sym (start-kept Object w p)) (same-Drained w w p refl λ c. c)
  call-Drained set_trio_token first second w p = same-Drained w _ p refl λ c. c
  call-Drained (operation op) first second w p =
      Effect-Drained p (operate-Effect u dumps is_known op first w)
  call-Drained (initiate_shutdown worker_id) first second w p = initiate-Drained worker_id first w p
  call-Drained (finalize_shutdown worker_id timeout) first second w p =
      finalize-Drained worker_id timeout first second w p
  call-Drained (shutdown timeout) first second w p =
      let d = initiate-Drained none first w p in
      trans-Drained w _ _ d (finalize-Drained none timeout first second _ d.shutting_down)

  -- Once the bridge shuts down, it does so through every sequence of calls, whatever the bridge
  -- answers, and all that is still sent are completions of activations and shutdowns of workers; once
  -- the Rust bridge is closed, nothing is sent, and it stays closed.
  pub only_drains_after_shutdown :
      (cs : List (Call Object × Answer × Answer)) (w : TrioBridgeWrapper)
      → w.state ≡ State.shutdown
      → Drained w (calls u dumps is_known cs w)
  unfolding calls
  only_drains_after_shutdown [] w p = same-Drained w w p refl λ c. c
  only_drains_after_shutdown ((c, first, second) ∷ cs) w p =
      let d = call-Drained c first second w p in
      trans-Drained w _ _ d (only_drains_after_shutdown cs _ d.shutting_down)
