-- ===== src/AsyncBridge/Shutdown.antt =====
-- temporalio_trio/_async_bridge.py: `initiate_shutdown`, `finalize_shutdown` and `shutdown`.
use python_trio_sdk.Common.{ℕ, Bool, true, false, String, Option, none, some, [], if◌then◌else◌}
use python_trio_sdk.Host.{runtime_error}
use python_trio_sdk.AsyncBridge.State.{
  Bytes, BridgeState, not_started, running, TrioBridgeWrapper, Answer, Ending, raised, returned,
  blocked, refusal, taken,
}
use python_trio_sdk.AsyncBridge.State
use python_trio_sdk.AsyncBridge.Exchange.{await_reply, deliver_done, take_done}
use python_trio_sdk.AsyncBridge.Prefix.{Utf8, worker_bytes}

-- `self._state == BridgeState.SHUTDOWN`
unfoldable pub is_shutting_down : BridgeState → Bool
is_shutting_down not_started = false
is_shutting_down running = false
is_shutting_down State.shutdown = true

-- `send_request` in a `try` that goes on whatever the text of the error.
unfoldable pub try_send : String → Bytes → Answer → TrioBridgeWrapper → TrioBridgeWrapper
unfolding refusal taken
try_send operation payload answer w = elim (refusal answer w) [
  | none ↦ taken operation payload w
  | some _ ↦ w
]

unfoldable pub initiate_bridge : Answer → TrioBridgeWrapper → TrioBridgeWrapper
unfolding is_shutting_down try_send
initiate_bridge answer w =
    if is_shutting_down w.state
    then w
    else record (try_send "initiate_shutdown" [] answer w) { state = State.shutdown }

module _ (u : Utf8) where
  unfoldable pub initiate_shutdown :
      (worker_id : Option String) → Answer → TrioBridgeWrapper → TrioBridgeWrapper
  unfolding initiate_bridge try_send worker_bytes
  initiate_shutdown none answer w = initiate_bridge answer w
  initiate_shutdown (some worker_id) answer w =
      try_send "initiate_shutdown" (worker_bytes u (some worker_id)) answer w

-- Behind the wait of a shutdown of the whole bridge that was not timed out: the Rust bridge is
-- closed. `shutdown()` of the Rust bridge raises nothing that is not caught.
unfoldable pub closed : TrioBridgeWrapper → TrioBridgeWrapper
closed w = record w { shutdown_finalized = true; closed = true }

module _ {Object : Type 0} where
  -- A timed out or endless wait leaves the wrapper as it is.
  unfoldable pub after_wait :
      (whole : Bool)
      → (timeout : Option ℕ) → Answer
      → TrioBridgeWrapper
      → Ending Object (Unit {0}) × TrioBridgeWrapper
  unfolding await_reply deliver_done take_done closed
  after_wait whole timeout answer w =
      (outcome, if replied_to answer then (if whole then closed w else w) else w)
    where
      outcome : Ending Object (Unit {0})
      outcome =
          await_reply "finalize_shutdown" (deliver_done "Shutdown error: ") take_done timeout answer

      replied_to : Answer → Bool
      replied_to (State.replied _) = true
      replied_to (State.refused _) = false
      replied_to State.silent = false

  -- `is_known` says whether "shutdown" or "not running" is in the lower case text.
  unfoldable pub send_finalize :
      (is_known : String → Bool) (whole : Bool) (payload : Bytes) (timeout : Option ℕ)
      → Answer
      → TrioBridgeWrapper
      → Ending Object (Unit {0}) × TrioBridgeWrapper
  unfolding refusal taken after_wait
  send_finalize is_known whole payload timeout answer w = elim (refusal answer w) [
    | some message ↦
        if is_known message
        then (returned tt, if whole then record w { shutdown_finalized = true } else w)
        else (raised (runtime_error message), w)
    | none ↦ after_wait whole timeout answer (taken "finalize_shutdown" payload w)
  ]

module _ {Object : Type 0} (u : Utf8) (is_known : String → Bool) where
  -- The answers are those to the two requests that may be sent.
  unfoldable pub finalize_shutdown :
      (worker_id : Option String) (timeout : Option ℕ) (first second : Answer)
      → TrioBridgeWrapper
      → Ending Object (Unit {0}) × TrioBridgeWrapper
  unfolding initiate_bridge send_finalize worker_bytes
  finalize_shutdown none timeout first second w =
      if w.shutdown_finalized
      then (returned tt, w)
      else send_finalize is_known true [] timeout second (initiate_bridge first w)
  finalize_shutdown (some worker_id) timeout first second w =
      send_finalize is_known false (worker_bytes u (some worker_id)) timeout second w

  unfoldable pub shutdown :
      (timeout : Option ℕ) (first second : Answer)
      → TrioBridgeWrapper
      → Ending Object (Unit {0}) × TrioBridgeWrapper
  unfolding initiate_shutdown finalize_shutdown
  shutdown timeout first second w =
      finalize_shutdown none timeout first second (initiate_shutdown u none first w)
