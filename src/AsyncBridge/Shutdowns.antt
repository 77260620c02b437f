-- ===== src/AsyncBridge/Shutdowns.antt =====
-- temporalio_trio/_async_bridge.py: a shutdown that the bridge answers, and what comes after it.
use python_trio_sdk.Common.{
  ℕ, ◌≡◌, refl, Bool, true, false, String, Option, List, [], ◌∷◌, ◌++◌, if◌then◌else◌,
}
use python_trio_sdk.AsyncBridge.State.{
  BridgeState, not_started, running, Request, TrioBridgeWrapper, RequestResult, Answer, replied,
  taken, refusal, returned,
}
use python_trio_sdk.AsyncBridge.State
use python_trio_sdk.AsyncBridge.Prefix.{Utf8}
use python_trio_sdk.AsyncBridge.Shutdown.{
  is_shutting_down, try_send, initiate_bridge, initiate_shutdown, send_finalize, after_wait, closed,
  finalize_shutdown, shutdown,
}

-- A wrapper whose bridge is open and not finalized.
abbrev pub open_wrapper : (has_token : Bool) → BridgeState → List Request → TrioBridgeWrapper
open_wrapper has_token state requests = record {
  has_trio_token = has_token;
  state = state;
  shutdown_finalized = false;
  closed = false;
  requests = requests;
}

abbrev pub shutdown_requests : BridgeState → List Request → List Request
shutdown_requests state requests =
    (if is_shutting_down state
      then requests
      else requests ++ record { operation = "initiate_shutdown"; payload = [] } ∷ [])
    ++ record { operation = "finalize_shutdown"; payload = [] } ∷ []

module _ (Object : Type 0) (u : Utf8) (is_known : String → Bool) where
  -- A shutdown that the bridge answers, with or without an error, sends one request to initiate it,
  -- unless that was done before, and one to finalize it, and closes the bridge; every later shutdown
  -- returns at once, sends nothing and changes nothing.
  pub shutdown_happens_once :
      (has_token : Bool) (state : BridgeState) (requests : List Request) (r₁ r₂ : RequestResult)
      (timeout later_timeout : Option ℕ) (later₁ later₂ : Answer)
      → let w =
          (shutdown {Object = Object} u is_known timeout
            (replied r₁)
            (replied r₂)
            (open_wrapper has_token state requests)).1 in
        (w.closed ≡ true)
        × (w.requests ≡ shutdown_requests state requests)
        × (shutdown {Object = Object} u is_known later_timeout later₁ later₂ w ≡ (returned tt, w))
  unfolding shutdown initiate_shutdown finalize_shutdown initiate_bridge try_send send_finalize
      after_wait closed is_shutting_down taken refusal
  shutdown_happens_once has_token not_started requests r₁ r₂ timeout later_timeout later₁ later₂ =
      (refl, refl, refl)
  shutdown_happens_once has_token running requests r₁ r₂ timeout later_timeout later₁ later₂ =
      (refl, refl, refl)
  shutdown_happens_once has_token State.shutdown requests r₁ r₂ timeout later_timeout later₁
        later₂ =
      (refl, refl, refl)
