-- ===== src/AsyncBridge/Effects.antt =====
-- temporalio_trio/_async_bridge.py: what an operation does to the wrapper: one request at most.
use python_trio_sdk.Common.{
  ℕ, ◌≡◌, refl, Bool, true, false, String, Option, none, some, [], ◌||◌, ◌==◌, string_eq, ◌⊎◌, inl,
  inr, Option-cases, arith,
}
use python_trio_sdk.Host.{index_error, Exception, Result, ok, err}
use python_trio_sdk.AsyncBridge.State.{
  Bytes, running, TrioBridgeWrapper, RequestResult, Answer, Ending, refusal, taken, check_running,
}
use python_trio_sdk.AsyncBridge.Exchange.{
  Containers, exchange, checked, bridge_bug, deliver_data, deliver_or_empty, deliver_done,
  take_result, take_done, ask, tell,
}
use python_trio_sdk.AsyncBridge.Prefix.{Utf8, prefixed, encode_worker_id_prefix}
use python_trio_sdk.AsyncBridge.Json.{Dumps}
use python_trio_sdk.AsyncBridge.Shutdown.{try_send}
use python_trio_sdk.AsyncBridge.Worker
use python_trio_sdk.AsyncBridge.Worker.{with_data}
use python_trio_sdk.AsyncBridge.Client
use python_trio_sdk.AsyncBridge.Replay
use python_trio_sdk.AsyncBridge.Calls.{
  Operation, operate, initialize_client, get_workflow_execution_history,
  terminate_workflow_execution, query_workflow, initialize_with_config, create_worker,
  poll_workflow_activation, complete_workflow_activation, poll_activity_task,
  complete_activity_task, record_activity_heartbeat, validate, pass_through,
  start_workflow_execution, signal_with_start_workflow_execution, list_workflows, count_workflows,
  update_workflow, poll_workflow_execution_update, get_workflow_result, cancel_workflow_execution,
  signal_workflow, describe_workflow, initialize_replay_worker, push_replay_history,
  close_replay_pusher, poll_replay_activation, complete_replay_activation, initiate_replay_shutdown,
  finalize_replay_shutdown,
}

-- What is still sent once the bridge shuts down: completions, and shutdowns of workers.
unfoldable pub drains : String → Bool
drains operation =
    operation == "complete_activation"
    || operation == "complete_replay_activation"
    || operation == "initiate_shutdown"
    || operation == "finalize_shutdown"
    || operation == "initiate_replay_shutdown"
    || operation == "finalize_replay_shutdown"

-- Nothing changes, or one request is taken, of a wrapper that is running or by an operation that
-- drains, while the Rust bridge is open.
pub data Effect (w : TrioBridgeWrapper) : TrioBridgeWrapper → Type 0 where
  kept : Effect w w
  sent :
      (operation : String) (payload : Bytes)
      → w.closed ≡ false
      → (w.state ≡ running) ⊎ (drains operation ≡ true)
      → Effect w (taken operation payload w)

pub not_refused-open :
    (answer : Answer) (w : TrioBridgeWrapper) → refusal answer w ≡ none → w.closed ≡ false
unfolding refusal
not_refused-open answer w p = ground (arith, p)

check_running-none :
    {Object : Type 0} (w : TrioBridgeWrapper)
    → check_running {Object = Object} w ≡ none
    → w.state ≡ running
unfolding check_running
check_running-none w p = ground (arith, p)

pub try_send-Effect :
    (operation : String) (payload : Bytes) (answer : Answer) (w : TrioBridgeWrapper)
    → drains operation ≡ true
    → Effect w (try_send operation payload answer w)
unfolding try_send
try_send-Effect operation payload answer w allowed = elim (Option-cases (refusal answer w)) [
  | inl p ↦ rw (p, try_send) (sent operation payload (not_refused-open answer w p) (inr allowed))
  | inr (m, p) ↦ rw (p, try_send) kept
]

module _ {Object A : Type 0} where
  exchange-Effect :
      (operation name : String) (payload : Bytes) (deliver : RequestResult → Containers Object)
      (take : Containers Object → Ending Object A) (timeout : Option ℕ) (answer : Answer)
      (w : TrioBridgeWrapper)
      → (w.state ≡ running) ⊎ (drains operation ≡ true)
      → Effect w (exchange operation name payload deliver take timeout answer w).1
  unfolding exchange
  exchange-Effect operation name payload deliver take timeout answer w allowed =
      elim (Option-cases (refusal answer w)) [
        | inl p ↦ rw (p, exchange) (sent operation payload (not_refused-open answer w p) allowed)
        | inr (m, p) ↦ rw (p, exchange) kept
      ]

  checked-Effect :
      (check : Option (Exception Object)) (done : Ending Object A × TrioBridgeWrapper)
      (w : TrioBridgeWrapper)
      → (check ≡ none → Effect w done.1)
      → Effect w (checked check done w).1
  unfolding checked
  checked-Effect none done w effect = effect refl
  checked-Effect (some e) done w effect = kept

  with_data-Effect :
      (r : Result Object Bytes) (send : Bytes → Ending Object A × TrioBridgeWrapper)
      (w : TrioBridgeWrapper)
      → ((payload : Bytes) → Effect w (send payload).1)
      → Effect w (with_data r send w).1
  unfolding with_data
  with_data-Effect (ok payload) send w effect = effect payload
  with_data-Effect (err e) send w effect = kept

module _ (Object : Type 0) where
  ask-Effect :
      (operation name : String) (missing : RequestResult → String) (empty : Exception Object)
      (payload : Bytes) (timeout : Option ℕ) (answer : Answer) (w : TrioBridgeWrapper)
      → Effect w (ask {Object = Object} operation name missing empty payload timeout answer w).1
  unfolding ask
  ask-Effect operation name missing empty payload timeout answer w = checked-Effect _ _ w λ p.
      exchange-Effect operation name payload (deliver_data missing "") (take_result empty) timeout
        answer w (inl (check_running-none w p))

  tell-Effect :
      (operation name prefix : String) (payload : Bytes) (timeout : Option ℕ) (answer : Answer)
      (w : TrioBridgeWrapper)
      → Effect w (tell {Object = Object} operation name prefix payload timeout answer w).1
  unfolding tell
  tell-Effect operation name prefix payload timeout answer w = checked-Effect _ _ w λ p.
      exchange-Effect operation name payload (deliver_done prefix) take_done timeout answer w
        (inl (check_running-none w p))

  passthrough-Effect :
      (operation : String) (payload : Bytes) (timeout : Option ℕ) (answer : Answer)
      (w : TrioBridgeWrapper)
      → Effect w
          (Client.protobuf_passthrough {Object = Object} operation payload timeout answer w).1
  unfolding Client.protobuf_passthrough
  passthrough-Effect operation payload timeout answer w = checked-Effect _ _ w λ p.
      exchange-Effect operation operation payload deliver_or_empty (take_result index_error) timeout
        answer w (inl (check_running-none w p))

  replay_shutdown-Effect :
      (operation : String) (timeout : Option ℕ) (answer : Answer) (w : TrioBridgeWrapper)
      → drains operation ≡ true
      → Effect w (Replay.replay_shutdown {Object = Object} operation timeout answer w).1
  unfolding Replay.replay_shutdown
  replay_shutdown-Effect operation timeout answer w allowed =
      elim (Option-cases (refusal answer w)) [
        | inl p ↦
            rw (p, Replay.replay_shutdown)
              (exchange-Effect operation operation [] (deliver_done "") take_done timeout answer w
                (inr allowed))
        | inr (m, p) ↦ rw (p, Replay.replay_shutdown) kept
      ]

module _ {Object : Type 0} (u : Utf8) (dumps : Dumps Object) (is_known : String → Bool) where
  pub operate-Effect :
      (op : Operation Object) (answer : Answer) (w : TrioBridgeWrapper)
      → Effect w (operate u dumps is_known op answer w)
  unfolding operate drains Worker.initialize_with_config Worker.create_worker
      Worker.poll_workflow_activation Worker.complete_workflow_activation Worker.poll_activity_task
      Worker.complete_activity_task Worker.record_activity_heartbeat Worker.validate
      Client.pass_through Client.initialize_client Client.start_workflow_execution
      Client.signal_with_start_workflow_execution Client.list_workflows Client.count_workflows
      Client.update_workflow Client.poll_workflow_execution_update Client.get_workflow_result
      Client.get_workflow_execution_history Client.cancel_workflow_execution
      Client.terminate_workflow_execution Client.query_workflow Client.signal_workflow
      Client.describe_workflow Replay.initialize_replay_worker Replay.push_replay_history
      Replay.close_replay_pusher Replay.poll_replay_activation Replay.complete_replay_activation
      Replay.initiate_replay_shutdown Replay.finalize_replay_shutdown
  operate-Effect (initialize_with_config _ _ _) answer w = tell-Effect Object _ _ _ _ _ answer w
  operate-Effect (create_worker bad_utf8 p timeout) answer w = checked-Effect _ _ w λ r.
      exchange-Effect "create_worker" "create_worker" (dumps (Worker.worker_config p))
        (Worker.deliver_worker_id u bad_utf8) (take_result index_error) timeout answer w
        (inl (check_running-none w r))
  operate-Effect (poll_workflow_activation _ _) answer w = ask-Effect Object _ _ _ _ _ _ answer w
  operate-Effect (complete_workflow_activation bytes worker_id timeout) answer w =
      checked-Effect _ _ w λ r. with_data-Effect (prefixed u worker_id bytes) _ w λ payload.
        exchange-Effect "complete_activation" "complete_workflow_activation" payload
          (deliver_done "Complete activation failed: ") take_done timeout answer w (inr refl)
  operate-Effect (poll_activity_task _ _) answer w = ask-Effect Object _ _ _ _ _ _ answer w
  operate-Effect (complete_activity_task bytes worker_id timeout) answer w =
      checked-Effect _ _ w λ r. with_data-Effect (prefixed u worker_id bytes) _ w λ payload.
        exchange-Effect "complete_activity_task" "complete_activity_task" payload
          (deliver_done "Complete activity task failed: ") take_done timeout answer w
          (inl (check_running-none w r))
  operate-Effect (record_activity_heartbeat bytes worker_id timeout) answer w =
      checked-Effect _ _ w λ r. with_data-Effect (prefixed u worker_id bytes) _ w λ payload.
        exchange-Effect "record_activity_heartbeat" "record_activity_heartbeat" payload
          (deliver_data (bridge_bug "record_activity_heartbeat") "") (take_result index_error)
          timeout answer w (inl (check_running-none w r))
  operate-Effect (validate _) answer w = tell-Effect Object _ _ _ _ _ answer w
  operate-Effect (pass_through _ _ _) answer w = passthrough-Effect Object _ _ _ answer w
  operate-Effect (start_workflow_execution _ _) answer w = ask-Effect Object _ _ _ _ _ _ answer w
  operate-Effect (signal_with_start_workflow_execution _ _) answer w =
      ask-Effect Object _ _ _ _ _ _ answer w
  operate-Effect (list_workflows _ _) answer w = ask-Effect Object _ _ _ _ _ _ answer w
  operate-Effect (count_workflows _ _) answer w = ask-Effect Object _ _ _ _ _ _ answer w
  operate-Effect (update_workflow _ _) answer w = ask-Effect Object _ _ _ _ _ _ answer w
  operate-Effect (poll_workflow_execution_update _ _) answer w =
      ask-Effect Object _ _ _ _ _ _ answer w
  operate-Effect (get_workflow_result _ _ _) answer w = ask-Effect Object _ _ _ _ _ _ answer w
  operate-Effect (cancel_workflow_execution _ _ _ _) answer w =
      tell-Effect Object _ _ _ _ _ answer w
  operate-Effect (signal_workflow _ _ _ _ _) answer w = tell-Effect Object _ _ _ _ _ answer w
  operate-Effect (describe_workflow _ _ _) answer w = ask-Effect Object _ _ _ _ _ _ answer w
  operate-Effect (initialize_replay_worker _ _) answer w = tell-Effect Object _ _ _ _ _ answer w
  operate-Effect (push_replay_history workflow_id history timeout) answer w =
      checked-Effect _ _ w λ r.
        with_data-Effect (encode_worker_id_prefix u workflow_id history) _ w λ payload.
          exchange-Effect "push_replay_history" "push_replay_history" payload (deliver_done "")
            take_done timeout answer w (inl (check_running-none w r))
  operate-Effect (close_replay_pusher _) answer w = tell-Effect Object _ _ _ _ _ answer w
  operate-Effect (poll_replay_activation _) answer w = ask-Effect Object _ _ _ _ _ _ answer w
  operate-Effect (complete_replay_activation bytes timeout) answer w = checked-Effect _ _ w λ _.
      exchange-Effect "complete_replay_activation" "complete_replay_activation" bytes
        (deliver_done "") take_done timeout answer w (inr refl)
  operate-Effect (initiate_replay_shutdown _) answer w =
      replay_shutdown-Effect Object _ _ answer w refl
  operate-Effect (finalize_replay_shutdown _) answer w =
      replay_shutdown-Effect Object _ _ answer w refl
  operate-Effect (initialize_client _ _ _ _ _ _ _) answer w = tell-Effect Object _ _ _ _ _ answer w
  operate-Effect (get_workflow_execution_history _ _ _ _ _ _) answer w =
      ask-Effect Object _ _ _ _ _ _ answer w
  operate-Effect (terminate_workflow_execution _ _ _ _ _ _) answer w =
      tell-Effect Object _ _ _ _ _ answer w
  operate-Effect (query_workflow _ _ _ _ _ _) answer w = ask-Effect Object _ _ _ _ _ _ answer w
