-- ===== src/AsyncBridge/Exchange.antt =====
-- temporalio_trio/_async_bridge.py: what the operations share: a request is sent with a callback, the
-- caller waits for its event, and reads what the callback has put into two lists. Reading a result
-- raises nothing, so that the `except` branch of the callbacks is not reached.
use python_trio_sdk.Common.{
  ℕ, String, concat, Option, none, some, List, [], ◌∷◌, if◌then◌else◌, ◌==◌, string_eq,
}
use python_trio_sdk.Host.{Exception, runtime_error, too_slow_error}
use python_trio_sdk.AsyncBridge.State.{
  Bytes, TrioBridgeWrapper, RequestResult, Answer, refused, replied, silent, Ending, returned,
  raised, blocked, refusal, taken, check_running,
}

pub record Containers (Object : Type 0) : Type 0 where
  pub result_container : List Bytes
  pub error_container : List (Exception Object)

-- `result.error or "Unknown error"`
unfoldable pub error_text : RequestResult → String
error_text r = or_unknown r.error
  where
    or_unknown : Option String → String
    or_unknown none = "Unknown error"
    or_unknown (some e) = if e == "" then "Unknown error" else e

-- " returned success without data", as most operations put it
unfoldable pub bridge_bug : (name : String) → RequestResult → String
bridge_bug name r = concat name (
    concat " returned success without data. This indicates a bridge bug (request_id: "
      (concat r.request_id ")"))

unfoldable pub without_data : (name : String) → RequestResult → String
without_data name r = concat name " returned success without data"

module _ {Object : Type 0} where
  unfoldable pub one_result : Bytes → Containers Object
  one_result bytes = record { result_container = bytes ∷ []; error_container = [] }

  unfoldable pub one_error : String → Containers Object
  one_error message = record { result_container = []; error_container = runtime_error message ∷ [] }

  -- A callback that wants data: the text for a success without data, and what stands before the
  -- bridge's error.
  unfoldable pub deliver_data :
      (missing : RequestResult → String) (prefix : String) → RequestResult → Containers Object
  unfolding one_result one_error error_text
  deliver_data missing prefix r =
      if r.success
      then elim r.get_data [ none ↦ one_error (missing r) | some bytes ↦ one_result bytes ]
      else one_error (concat prefix (error_text r))

  -- The callback of `_protobuf_passthrough`.
  unfoldable pub deliver_or_empty : RequestResult → Containers Object
  unfolding one_result one_error error_text
  deliver_or_empty r =
      if r.success
      then elim r.get_data [ none ↦ one_result [] | some bytes ↦ one_result bytes ]
      else one_error (error_text r)

  -- A callback that wants no data.
  unfoldable pub deliver_done : (prefix : String) → RequestResult → Containers Object
  unfolding one_error error_text
  deliver_done prefix r =
      if r.success
      then record { result_container = []; error_container = [] }
      else one_error (concat prefix (error_text r))

  -- `raise error_container[0]` and `return result_container[0]`; `empty` is what an empty list of
  -- results raises, an IndexError where the operation has no test for it.
  unfoldable pub take_result : (empty : Exception Object) → Containers Object → Ending Object Bytes
  take_result empty c = elim c.error_container [
    | e ∷ _ ↦ raised e
    | [] ↦ elim c.result_container [ [] ↦ raised empty | bytes ∷ _ ↦ returned bytes ]
  ]

  unfoldable pub take_done : Containers Object → Ending Object (Unit {0})
  take_done c = elim c.error_container [ e ∷ _ ↦ raised e | [] ↦ returned tt ]

  -- The wait for the event. What a callback does after a timeout is seen by nobody.
  unfoldable pub await_reply :
      {A : Type 0}
      → (name : String) (deliver : RequestResult → Containers Object)
        (take : Containers Object → Ending Object A) (timeout : Option ℕ)
      → Answer
      → Ending Object A
  await_reply name deliver take timeout (replied r) = take (deliver r)
  await_reply name deliver take none silent = blocked
  await_reply name deliver take (some t) silent = raised (too_slow_error (concat name " timed out"))
  await_reply name deliver take timeout (refused message) = raised (runtime_error message)

  -- From `send_request` to the end of an operation.
  unfoldable pub exchange :
      {A : Type 0}
      → (operation name : String) (payload : Bytes) (deliver : RequestResult → Containers Object)
        (take : Containers Object → Ending Object A) (timeout : Option ℕ)
      → Answer
      → TrioBridgeWrapper
      → Ending Object A × TrioBridgeWrapper
  unfolding refusal taken await_reply
  exchange operation name payload deliver take timeout answer w = elim (refusal answer w) [
    | some message ↦ (raised (runtime_error message), w)
    | none ↦ (await_reply name deliver take timeout answer, taken operation payload w)
  ]

  -- An operation behind one of the checks.
  unfoldable pub checked :
      {A : Type 0}
      → Option (Exception Object)
      → Ending Object A × TrioBridgeWrapper
      → TrioBridgeWrapper
      → Ending Object A × TrioBridgeWrapper
  checked none done w = done
  checked (some e) done w = (raised e, w)

  -- A request whose reply has to have data.
  unfoldable pub ask :
      (operation name : String) (missing : RequestResult → String) (empty : Exception Object)
      (payload : Bytes) (timeout : Option ℕ)
      → Answer
      → TrioBridgeWrapper
      → Ending Object Bytes × TrioBridgeWrapper
  ask operation name missing empty payload timeout answer w =
      checked (check_running w)
        (exchange operation name payload (deliver_data missing "") (take_result empty) timeout
          answer w)
        w

  -- A request whose reply has no data.
  unfoldable pub tell :
      (operation name prefix : String) (payload : Bytes) (timeout : Option ℕ)
      → Answer
      → TrioBridgeWrapper
      → Ending Object (Unit {0}) × TrioBridgeWrapper
  tell operation name prefix payload timeout answer w =
      checked (check_running w)
        (exchange operation name payload (deliver_done prefix) take_done timeout answer w) w
