-- ===== src/AsyncBridge/State.antt =====
-- temporalio_trio/_async_bridge.py: the state of a TrioBridgeWrapper, its lifecycle checks, and the
-- bridge's `send_request` of temporalio_trio_bridge/src/bridge.rs.
use python_trio_sdk.Common.{
  ℕ, Bool, true, false, String, concat, Option, none, some, List, [], ◌∷◌, ◌++◌, if◌then◌else◌,
}
use python_trio_sdk.Host.{Exception, runtime_error}

abbrev pub Bytes : Type 0
Bytes = List ℕ

pub data BridgeState : Type 0 where
  not_started running shutdown : BridgeState

-- A request that the Rust bridge has taken.
pub record Request : Type 0 where
  pub operation : String
  pub payload : Bytes

-- `closed` and `requests` belong to the Rust bridge: its flag `shutdown`, and what it has taken.
pub record TrioBridgeWrapper : Type 0 where
  pub has_trio_token : Bool
  pub state : BridgeState
  pub shutdown_finalized : Bool
  pub closed : Bool
  pub requests : List Request

-- `RequestResult` as a callback sees it
pub record RequestResult : Type 0 where
  pub request_id : String
  pub success : Bool
  pub get_data : Option Bytes
  pub error : Option String

-- What the Rust bridge does with a request: `send_request` raises RuntimeError, the callback is called
-- in time, or it is not.
pub data Answer : Type 0 where
  refused : (message : String) → Answer
  replied : RequestResult → Answer
  silent : Answer

-- What a call comes to; `blocked` waits for its event for ever.
pub data Ending (Object A : Type 0) : Type 0 where
  returned : A → Ending Object A
  raised : Exception Object → Ending Object A
  blocked : Ending Object A

unfoldable pub new_wrapper : TrioBridgeWrapper
new_wrapper = record {
  has_trio_token = false;
  state = not_started;
  shutdown_finalized = false;
  closed = false;
  requests = [];
}

-- str(self._state)
unfoldable pub state_text : BridgeState → String
state_text not_started = "BridgeState.NOT_STARTED"
state_text running = "BridgeState.RUNNING"
state_text shutdown = "BridgeState.SHUTDOWN"

-- `Bridge has been shutdown` where the bridge is closed, and the answer's refusal.
unfoldable pub refusal : Answer → TrioBridgeWrapper → Option String
refusal answer w = if w.closed then some "Bridge has been shutdown" else by_answer answer
  where
    by_answer : Answer → Option String
    by_answer (refused message) = some message
    by_answer (replied _) = none
    by_answer silent = none

unfoldable pub taken : String → Bytes → TrioBridgeWrapper → TrioBridgeWrapper
taken operation payload w = record w {
  requests = w.requests ++ record { operation = operation; payload = payload } ∷ [];
}

unfoldable pub set_trio_token : TrioBridgeWrapper → TrioBridgeWrapper
set_trio_token w = record w { has_trio_token = true }

module _ {Object : Type 0} where
  unfoldable pub start_from :
      BridgeState → TrioBridgeWrapper → Ending Object (Unit {0}) × TrioBridgeWrapper
  start_from not_started w = (returned tt, record w { has_trio_token = true; state = running })
  start_from s w = (
    raised (runtime_error (concat "Bridge already started (state: " (concat (state_text s) ")"))),
    w,
  )

  unfoldable pub start : TrioBridgeWrapper → Ending Object (Unit {0}) × TrioBridgeWrapper
  start w = start_from w.state w

  unfoldable pub check_token : TrioBridgeWrapper → Option (Exception Object)
  check_token w =
      if w.has_trio_token
      then none
      else some (runtime_error "Trio token not set. This should not happen if start() was called.")

  -- The exception that a check raises.
  unfoldable pub check_running : TrioBridgeWrapper → Option (Exception Object)
  unfolding state_text check_token
  check_running w = elim w.state [
    | running ↦ check_token w
    | not_started ↦ some (refused_in not_started)
    | shutdown ↦ some (refused_in shutdown)
  ]
    where
      refused_in : BridgeState → Exception Object
      refused_in s =
          runtime_error (
            concat "Bridge is not running (state: "
              (concat (state_text s) "). Call start() first."))

  unfoldable pub check_can_complete : TrioBridgeWrapper → Option (Exception Object)
  unfolding state_text check_token
  check_can_complete w = elim w.state [
    | not_started ↦ some (
        runtime_error (
          concat "Bridge is not started (state: "
            (concat (state_text not_started) "). Call start() first.")))
    | running ↦ check_token w
    | shutdown ↦ check_token w
  ]
