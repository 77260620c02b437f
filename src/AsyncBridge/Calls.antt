-- ===== src/AsyncBridge/Calls.antt =====
-- temporalio_trio/_async_bridge.py: the methods of TrioBridgeWrapper as the calls of one data type, and
-- sequences of calls. A call that is awaited while another runs is answered by then or not at all: what
-- it changes, it changes before its wait, apart from the end of `finalize_shutdown`.
use python_trio_sdk.Common.{ℕ, Bool, String, Option, List, [], ◌∷◌}
use python_trio_sdk.Common.Dict.{Dict}
use python_trio_sdk.Host.{Exception}
use python_trio_sdk.AsyncBridge.State
use python_trio_sdk.AsyncBridge.State.{Bytes, TrioBridgeWrapper, Answer}
use python_trio_sdk.AsyncBridge.Prefix.{Utf8}
use python_trio_sdk.AsyncBridge.Json.{Json, Dumps}
use python_trio_sdk.AsyncBridge.Worker
use python_trio_sdk.AsyncBridge.Worker.{WorkerConfig}
use python_trio_sdk.AsyncBridge.Client
use python_trio_sdk.AsyncBridge.Client.{Passthrough}
use python_trio_sdk.AsyncBridge.Replay
use python_trio_sdk.AsyncBridge.Shutdown

-- The operations that send at most one request and leave the lifecycle as it is.
pub data Operation (Object : Type 0) : Type 0 where
  initialize_with_config :
      (target_url : String) (p : WorkerConfig Object) (timeout : Option ℕ) → Operation Object
  create_worker :
      (bad_utf8 : Exception Object) (p : WorkerConfig Object) (timeout : Option ℕ)
      → Operation Object
  poll_workflow_activation : (worker_id : Option String) (timeout : Option ℕ) → Operation Object
  complete_workflow_activation :
      (completion_bytes : Bytes) (worker_id : Option String) (timeout : Option ℕ) → Operation Object
  poll_activity_task : (worker_id : Option String) (timeout : Option ℕ) → Operation Object
  complete_activity_task :
      (completion_bytes : Bytes) (worker_id : Option String) (timeout : Option ℕ) → Operation Object
  record_activity_heartbeat :
      (heartbeat_bytes : Bytes) (worker_id : Option String) (timeout : Option ℕ) → Operation Object
  validate : (timeout : Option ℕ) → Operation Object
  pass_through :
      (method : Passthrough) (request_bytes : Bytes) (timeout : Option ℕ) → Operation Object
  initialize_client :
      (target_url : String) (namespace : String) (identity : Option String)
      (api_key : Option String) (tls_config : Option Object) (rpc_metadata : Option Object)
      (timeout : Option ℕ)
      → Operation Object
  start_workflow_execution : (request_bytes : Bytes) (timeout : Option ℕ) → Operation Object
  signal_with_start_workflow_execution :
      (request_bytes : Bytes) (timeout : Option ℕ) → Operation Object
  list_workflows : (request_bytes : Bytes) (timeout : Option ℕ) → Operation Object
  count_workflows : (request_bytes : Bytes) (timeout : Option ℕ) → Operation Object
  update_workflow : (request_bytes : Bytes) (timeout : Option ℕ) → Operation Object
  poll_workflow_execution_update : (request_bytes : Bytes) (timeout : Option ℕ) → Operation Object
  get_workflow_result :
      (workflow_id : String) (run_id : Option String) (timeout : Option ℕ) → Operation Object
  get_workflow_execution_history :
      (workflow_id : String) (run_id : Option String) (next_page_token : Bytes)
      (event_filter_type : Option ℕ) (skip_archival : Option Bool) (timeout : Option ℕ)
      → Operation Object
  cancel_workflow_execution :
      (workflow_id : String) (run_id : Option String) (first_execution_run_id : Option String)
      (timeout : Option ℕ)
      → Operation Object
  terminate_workflow_execution :
      (workflow_id : String) (run_id : Option String) (reason : String)
      (first_execution_run_id : Option String) (details_payloads_bytes : Option Bytes)
      (timeout : Option ℕ)
      → Operation Object
  query_workflow :
      (workflow_id : String) (run_id : Option String) (query_type : String) (args_bytes : Bytes)
      (reject_condition : Option ℕ) (timeout : Option ℕ)
      → Operation Object
  signal_workflow :
      (workflow_id : String) (run_id : Option String) (signal_name : String) (args_bytes : Bytes)
      (timeout : Option ℕ)
      → Operation Object
  describe_workflow :
      (workflow_id : String) (run_id : Option String) (timeout : Option ℕ) → Operation Object
  initialize_replay_worker :
      (config : Dict String (Json Object)) (timeout : Option ℕ) → Operation Object
  push_replay_history :
      (workflow_id : String) (history_bytes : Bytes) (timeout : Option ℕ) → Operation Object
  close_replay_pusher : (timeout : Option ℕ) → Operation Object
  poll_replay_activation : (timeout : Option ℕ) → Operation Object
  complete_replay_activation : (completion_bytes : Bytes) (timeout : Option ℕ) → Operation Object
  initiate_replay_shutdown : (timeout : Option ℕ) → Operation Object
  finalize_replay_shutdown : (timeout : Option ℕ) → Operation Object

pub data Call (Object : Type 0) : Type 0 where
  start set_trio_token : Call Object
  operation : Operation Object → Call Object
  initiate_shutdown : (worker_id : Option String) → Call Object
  finalize_shutdown : (worker_id : Option String) (timeout : Option ℕ) → Call Object
  shutdown : (timeout : Option ℕ) → Call Object

module _ {Object : Type 0} (u : Utf8) (dumps : Dumps Object) (is_known : String → Bool) where
  -- The wrapper behind an operation.
  unfoldable pub operate : Operation Object → Answer → TrioBridgeWrapper → TrioBridgeWrapper
  unfolding Worker.initialize_with_config Worker.create_worker Worker.poll_workflow_activation
      Worker.complete_workflow_activation Worker.poll_activity_task Worker.complete_activity_task
      Worker.record_activity_heartbeat Worker.validate Client.pass_through Client.initialize_client
      Client.start_workflow_execution Client.signal_with_start_workflow_execution
      Client.list_workflows Client.count_workflows Client.update_workflow
      Client.poll_workflow_execution_update Client.get_workflow_result
      Client.get_workflow_execution_history Client.cancel_workflow_execution
      Client.terminate_workflow_execution Client.query_workflow Client.signal_workflow
      Client.describe_workflow Replay.initialize_replay_worker Replay.push_replay_history
      Replay.close_replay_pusher Replay.poll_replay_activation Replay.complete_replay_activation
      Replay.initiate_replay_shutdown Replay.finalize_replay_shutdown
  operate (initialize_with_config target_url p timeout) answer w =
      (Worker.initialize_with_config dumps target_url p timeout answer w).1
  operate (create_worker bad_utf8 p timeout) answer w =
      (Worker.create_worker u dumps bad_utf8 p timeout answer w).1
  operate (poll_workflow_activation worker_id timeout) answer w =
      (Worker.poll_workflow_activation {Object = Object} u worker_id timeout answer w).1
  operate (complete_workflow_activation completion_bytes worker_id timeout) answer w =
      (Worker.complete_workflow_activation {Object = Object} u completion_bytes worker_id timeout
        answer w).1
  operate (poll_activity_task worker_id timeout) answer w =
      (Worker.poll_activity_task {Object = Object} u worker_id timeout answer w).1
  operate (complete_activity_task completion_bytes worker_id timeout) answer w =
      (Worker.complete_activity_task {Object = Object} u completion_bytes worker_id timeout answer
        w).1
  operate (record_activity_heartbeat heartbeat_bytes worker_id timeout) answer w =
      (Worker.record_activity_heartbeat {Object = Object} u heartbeat_bytes worker_id timeout answer
        w).1
  operate (validate timeout) answer w = (Worker.validate {Object = Object} timeout answer w).1
  operate (pass_through method request_bytes timeout) answer w =
      (Client.pass_through {Object = Object} method request_bytes timeout answer w).1
  operate (initialize_client target_url namespace identity api_key tls_config rpc_metadata timeout)
        answer w =
      (Client.initialize_client dumps target_url namespace identity api_key tls_config rpc_metadata
        timeout answer w).1
  operate (start_workflow_execution request_bytes timeout) answer w =
      (Client.start_workflow_execution {Object = Object} request_bytes timeout answer w).1
  operate (signal_with_start_workflow_execution request_bytes timeout) answer w =
      (Client.signal_with_start_workflow_execution {Object = Object} request_bytes timeout answer
        w).1
  operate (list_workflows request_bytes timeout) answer w =
      (Client.list_workflows {Object = Object} request_bytes timeout answer w).1
  operate (count_workflows request_bytes timeout) answer w =
      (Client.count_workflows {Object = Object} request_bytes timeout answer w).1
  operate (update_workflow request_bytes timeout) answer w =
      (Client.update_workflow {Object = Object} request_bytes timeout answer w).1
  operate (poll_workflow_execution_update request_bytes timeout) answer w =
      (Client.poll_workflow_execution_update {Object = Object} request_bytes timeout answer w).1
  operate (get_workflow_result workflow_id run_id timeout) answer w =
      (Client.get_workflow_result dumps workflow_id run_id timeout answer w).1
  operate
        (get_workflow_execution_history workflow_id run_id next_page_token event_filter_type
          skip_archival timeout)
        answer w =
      (Client.get_workflow_execution_history dumps workflow_id run_id next_page_token
        event_filter_type skip_archival timeout answer w).1
  operate (cancel_workflow_execution workflow_id run_id first_execution_run_id timeout) answer w =
      (Client.cancel_workflow_execution dumps workflow_id run_id first_execution_run_id timeout
        answer w).1
  operate
        (terminate_workflow_execution workflow_id run_id reason first_execution_run_id
          details_payloads_bytes timeout)
        answer w =
      (Client.terminate_workflow_execution dumps workflow_id run_id reason first_execution_run_id
        details_payloads_bytes timeout answer w).1
  operate (query_workflow workflow_id run_id query_type args_bytes reject_condition timeout) answer
        w =
      (Client.query_workflow dumps workflow_id run_id query_type args_bytes reject_condition timeout
        answer w).1
  operate (signal_workflow workflow_id run_id signal_name args_bytes timeout) answer w =
      (Client.signal_workflow dumps workflow_id run_id signal_name args_bytes timeout answer w).1
  operate (describe_workflow workflow_id run_id timeout) answer w =
      (Client.describe_workflow dumps workflow_id run_id timeout answer w).1
  operate (initialize_replay_worker config timeout) answer w =
      (Replay.initialize_replay_worker dumps config timeout answer w).1
  operate (push_replay_history workflow_id history_bytes timeout) answer w =
      (Replay.push_replay_history {Object = Object} u workflow_id history_bytes timeout answer w).1
  operate (close_replay_pusher timeout) answer w =
      (Replay.close_replay_pusher {Object = Object} timeout answer w).1
  operate (poll_replay_activation timeout) answer w =
      (Replay.poll_replay_activation {Object = Object} timeout answer w).1
  operate (complete_replay_activation completion_bytes timeout) answer w =
      (Replay.complete_replay_activation {Object = Object} completion_bytes timeout answer w).1
  operate (initiate_replay_shutdown timeout) answer w =
      (Replay.initiate_replay_shutdown {Object = Object} timeout answer w).1
  operate (finalize_replay_shutdown timeout) answer w =
      (Replay.finalize_replay_shutdown {Object = Object} timeout answer w).1

  -- The wrapper behind a call; `shutdown` and `finalize_shutdown` may send two requests.
  unfoldable pub call :
      Call Object → (first second : Answer) → TrioBridgeWrapper → TrioBridgeWrapper
  unfolding operate State.start State.set_trio_token Shutdown.initiate_shutdown
      Shutdown.finalize_shutdown Shutdown.shutdown
  call start first second w = (State.start {Object = Object} w).1
  call set_trio_token first second w = State.set_trio_token w
  call (operation op) first second w = operate op first w
  call (initiate_shutdown worker_id) first second w = Shutdown.initiate_shutdown u worker_id first w
  call (finalize_shutdown worker_id timeout) first second w =
      (Shutdown.finalize_shutdown {Object = Object} u is_known worker_id timeout first second w).1
  call (shutdown timeout) first second w =
      (Shutdown.shutdown {Object = Object} u is_known timeout first second w).1

  unfoldable pub calls :
      List (Call Object × Answer × Answer) → TrioBridgeWrapper → TrioBridgeWrapper
  unfolding call
  calls [] w = w
  calls ((c, first, second) ∷ cs) w = calls cs (call c first second w)
