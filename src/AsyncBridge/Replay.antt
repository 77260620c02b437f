-- ===== src/AsyncBridge/Replay.antt =====
-- temporalio_trio/_async_bridge.py: the operations of a replay worker.
use python_trio_sdk.Common.{ℕ, Bool, String, Option, none, some, List, [], ◌∷◌, string_eq}
use python_trio_sdk.Common.Dict.{Dict, put}
use python_trio_sdk.Host.{index_error}
use python_trio_sdk.AsyncBridge.State.{
  Bytes, TrioBridgeWrapper, Answer, Ending, returned, check_running, check_can_complete, refusal,
}
use python_trio_sdk.AsyncBridge.Exchange.{
  exchange, checked, without_data, deliver_done, take_done, ask, tell,
}
use python_trio_sdk.AsyncBridge.Prefix.{Utf8, encode_worker_id_prefix}
use python_trio_sdk.AsyncBridge.Worker.{with_data}
use python_trio_sdk.AsyncBridge.Json.{Json, Dumps, text, boolean, texts, put_given}
use mathlib.Core.Option as O

-- `for_types or []`
unfoldable pub given_types : Option (List String) → List String
given_types none = []
given_types (some types) = types

module _ {Object : Type 0} where
  unfoldable pub replay_config :
      (namespace task_queue : String) (build_id identity : Option String)
      (nondeterminism_as_workflow_fail : Bool) (for_types : Option (List String))
      → Dict String (Json Object)
  replay_config namespace task_queue build_id identity nondeterminism_as_workflow_fail for_types =
      put
        (put
          (put_given "identity" (O.map text identity) (
            put_given "build_id" (O.map text build_id)
              (("namespace", text namespace) ∷ ("task_queue", text task_queue) ∷ [])))
          "nondeterminism_as_workflow_fail" (boolean nondeterminism_as_workflow_fail))
        "nondeterminism_as_workflow_fail_for_types" (texts (given_types for_types))

  unfoldable pub initialize_replay_worker :
      Dumps Object
      → (config : Dict String (Json Object)) (timeout : Option ℕ) → Answer
      → TrioBridgeWrapper
      → Ending Object (Unit {0}) × TrioBridgeWrapper
  initialize_replay_worker dumps config timeout answer w =
      tell "initialize_replay_worker" "initialize_replay_worker" "" (dumps config) timeout answer w

  -- The workflow id stands in front of the history as a worker id does before a completion.
  unfoldable pub push_replay_history :
      Utf8
      → (workflow_id : String) (history_bytes : Bytes) (timeout : Option ℕ) → Answer
      → TrioBridgeWrapper
      → Ending Object (Unit {0}) × TrioBridgeWrapper
  push_replay_history u workflow_id history_bytes timeout answer w =
      checked (check_running w)
        (with_data (encode_worker_id_prefix u workflow_id history_bytes)
          (λ payload.
            exchange "push_replay_history" "push_replay_history" payload (deliver_done "") take_done
              timeout answer w)
          w)
        w

  unfoldable pub close_replay_pusher :
      (timeout : Option ℕ)
      → Answer
      → TrioBridgeWrapper
      → Ending Object (Unit {0}) × TrioBridgeWrapper
  close_replay_pusher timeout answer w =
      tell "close_replay_pusher" "close_replay_pusher" "" [] timeout answer w

  unfoldable pub poll_replay_activation :
      (timeout : Option ℕ) → Answer → TrioBridgeWrapper → Ending Object Bytes × TrioBridgeWrapper
  poll_replay_activation timeout answer w =
      ask "poll_replay_activation" "poll_replay_activation" (without_data "poll_replay_activation")
        index_error [] timeout answer w

  unfoldable pub complete_replay_activation :
      (completion_bytes : Bytes) (timeout : Option ℕ)
      → Answer
      → TrioBridgeWrapper
      → Ending Object (Unit {0}) × TrioBridgeWrapper
  complete_replay_activation completion_bytes timeout answer w =
      checked (check_can_complete w)
        (exchange "complete_replay_activation" "complete_replay_activation" completion_bytes
          (deliver_done "") take_done timeout answer w)
        w

  -- A request that is not taken is no error for the two shutdowns.
  unfoldable pub replay_shutdown :
      (operation : String) (timeout : Option ℕ)
      → Answer
      → TrioBridgeWrapper
      → Ending Object (Unit {0}) × TrioBridgeWrapper
  replay_shutdown operation timeout answer w = elim (refusal answer w) [
    | some _ ↦ (returned tt, w)
    | none ↦ exchange operation operation [] (deliver_done "") take_done timeout answer w
  ]

  unfoldable pub initiate_replay_shutdown :
      (timeout : Option ℕ)
      → Answer
      → TrioBridgeWrapper
      → Ending Object (Unit {0}) × TrioBridgeWrapper
  initiate_replay_shutdown = replay_shutdown "initiate_replay_shutdown"

  unfoldable pub finalize_replay_shutdown :
      (timeout : Option ℕ)
      → Answer
      → TrioBridgeWrapper
      → Ending Object (Unit {0}) × TrioBridgeWrapper
  finalize_replay_shutdown = replay_shutdown "finalize_replay_shutdown"
