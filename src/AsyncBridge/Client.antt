-- ===== src/AsyncBridge/Client.antt =====
-- temporalio_trio/_async_bridge.py: the operations of a client.
use python_trio_sdk.Common.{ℕ, Bool, String, Option, [], ◌∷◌}
use python_trio_sdk.Common.Dict.{Dict}
use python_trio_sdk.Host.{index_error, runtime_error}
use python_trio_sdk.AsyncBridge.State.{Bytes, TrioBridgeWrapper, Answer, Ending, check_running}
use python_trio_sdk.AsyncBridge.Exchange.{
  exchange, checked, bridge_bug, without_data, deliver_or_empty, take_result, ask, tell,
}
use python_trio_sdk.AsyncBridge.Json.{
  Json, Dumps, text, number, boolean, numbers, object, put_given, or_null, or_empty,
}
use mathlib.Core.Option as O

-- The methods that hand their bytes to `_protobuf_passthrough`.
pub data Passthrough : Type 0 where
  update_worker_build_id_compatibility get_worker_build_id_compatibility
        get_worker_task_reachability execute_multi_operation create_schedule describe_schedule
        update_schedule patch_schedule delete_schedule list_schedules record_activity_task_heartbeat
        record_activity_task_heartbeat_by_id respond_activity_task_completed
        respond_activity_task_completed_by_id respond_activity_task_failed
        respond_activity_task_failed_by_id respond_activity_task_canceled
        respond_activity_task_canceled_by_id :
      Passthrough

unfoldable pub operation_of : Passthrough → String
operation_of update_worker_build_id_compatibility = "update_worker_build_id_compatibility"
operation_of get_worker_build_id_compatibility = "get_worker_build_id_compatibility"
operation_of get_worker_task_reachability = "get_worker_task_reachability"
operation_of execute_multi_operation = "execute_multi_operation"
operation_of create_schedule = "create_schedule"
operation_of describe_schedule = "describe_schedule"
operation_of update_schedule = "update_schedule"
operation_of patch_schedule = "patch_schedule"
operation_of delete_schedule = "delete_schedule"
operation_of list_schedules = "list_schedules"
operation_of record_activity_task_heartbeat = "record_activity_task_heartbeat"
operation_of record_activity_task_heartbeat_by_id = "record_activity_task_heartbeat_by_id"
operation_of respond_activity_task_completed = "respond_activity_task_completed"
operation_of respond_activity_task_completed_by_id = "respond_activity_task_completed_by_id"
operation_of respond_activity_task_failed = "respond_activity_task_failed"
operation_of respond_activity_task_failed_by_id = "respond_activity_task_failed_by_id"
operation_of respond_activity_task_canceled = "respond_activity_task_canceled"
operation_of respond_activity_task_canceled_by_id = "respond_activity_task_canceled_by_id"

module _ {Object : Type 0} where
  unfoldable pub protobuf_passthrough :
      (operation : String) (request_bytes : Bytes) (timeout : Option ℕ)
      → Answer
      → TrioBridgeWrapper
      → Ending Object Bytes × TrioBridgeWrapper
  protobuf_passthrough operation request_bytes timeout answer w =
      checked (check_running w)
        (exchange operation operation request_bytes deliver_or_empty (take_result index_error)
          timeout answer w)
        w

  unfoldable pub pass_through :
      Passthrough
      → (request_bytes : Bytes) (timeout : Option ℕ) → Answer
      → TrioBridgeWrapper
      → Ending Object Bytes × TrioBridgeWrapper
  pass_through method request_bytes timeout answer w =
      protobuf_passthrough (operation_of method) request_bytes timeout answer w

  unfoldable pub start_workflow_execution :
      (request_bytes : Bytes) (timeout : Option ℕ)
      → Answer
      → TrioBridgeWrapper
      → Ending Object Bytes × TrioBridgeWrapper
  start_workflow_execution request_bytes timeout answer w =
      ask "start_workflow" "start_workflow_execution" (bridge_bug "start_workflow") index_error
        request_bytes timeout answer w

  unfoldable pub signal_with_start_workflow_execution :
      (request_bytes : Bytes) (timeout : Option ℕ)
      → Answer
      → TrioBridgeWrapper
      → Ending Object Bytes × TrioBridgeWrapper
  signal_with_start_workflow_execution request_bytes timeout answer w =
      ask "signal_with_start_workflow" "signal_with_start_workflow_execution"
        (bridge_bug "signal_with_start_workflow") index_error request_bytes timeout answer w

  unfoldable pub list_workflows :
      (request_bytes : Bytes) (timeout : Option ℕ)
      → Answer
      → TrioBridgeWrapper
      → Ending Object Bytes × TrioBridgeWrapper
  list_workflows request_bytes timeout answer w =
      ask "list_workflows" "list_workflows" (without_data "list_workflows")
        (runtime_error "list_workflows returned no result") request_bytes timeout answer w

  unfoldable pub count_workflows :
      (request_bytes : Bytes) (timeout : Option ℕ)
      → Answer
      → TrioBridgeWrapper
      → Ending Object Bytes × TrioBridgeWrapper
  count_workflows request_bytes timeout answer w =
      ask "count_workflows" "count_workflows" (without_data "count_workflows")
        (runtime_error "count_workflows returned no result") request_bytes timeout answer w

  unfoldable pub update_workflow :
      (request_bytes : Bytes) (timeout : Option ℕ)
      → Answer
      → TrioBridgeWrapper
      → Ending Object Bytes × TrioBridgeWrapper
  update_workflow request_bytes timeout answer w =
      ask "update_workflow" "update_workflow" (without_data "update_workflow")
        (runtime_error "update_workflow returned no result") request_bytes timeout answer w

  unfoldable pub poll_workflow_execution_update :
      (request_bytes : Bytes) (timeout : Option ℕ)
      → Answer
      → TrioBridgeWrapper
      → Ending Object Bytes × TrioBridgeWrapper
  poll_workflow_execution_update request_bytes timeout answer w =
      ask "poll_workflow_execution_update" "poll_workflow_execution_update"
        (without_data "poll_workflow_execution_update")
        (runtime_error "poll_workflow_execution_update returned no result") request_bytes timeout
        answer w

module _ {Object : Type 0} (dumps : Dumps Object) where
  unfoldable pub initialize_client :
      (target_url namespace : String) (identity api_key : Option String)
      (tls_config rpc_metadata : Option Object) (timeout : Option ℕ)
      → Answer
      → TrioBridgeWrapper
      → Ending Object (Unit {0}) × TrioBridgeWrapper
  initialize_client target_url namespace identity api_key tls_config rpc_metadata timeout answer w =
      tell "initialize_client" "initialize_client" "Client init failed: "
        (dumps (
          put_given "rpc_metadata" (O.map object rpc_metadata) (
            put_given "tls_config" (O.map object tls_config) (
              put_given "api_key" (O.map text api_key) (
                ("target_url", text target_url)
                ∷ ("namespace", text namespace)
                ∷ ("identity", text (or_empty identity))
                ∷ [])))))
        timeout answer w

  abbrev pub execution : (workflow_id : String) (run_id : Option String) → Dict String (Json Object)
  execution workflow_id run_id = ("workflow_id", text workflow_id) ∷ ("run_id", or_null run_id) ∷ []

  unfoldable pub get_workflow_result :
      (workflow_id : String) (run_id : Option String) (timeout : Option ℕ)
      → Answer
      → TrioBridgeWrapper
      → Ending Object Bytes × TrioBridgeWrapper
  get_workflow_result workflow_id run_id timeout answer w =
      ask "get_workflow_result" "get_workflow_result" (bridge_bug "get_workflow_result") index_error
        (dumps (execution workflow_id run_id)) timeout answer w

  unfoldable pub get_workflow_execution_history :
      (workflow_id : String) (run_id : Option String) (next_page_token : Bytes)
      (event_filter_type : Option ℕ) (skip_archival : Option Bool) (timeout : Option ℕ)
      → Answer
      → TrioBridgeWrapper
      → Ending Object Bytes × TrioBridgeWrapper
  get_workflow_execution_history workflow_id run_id next_page_token event_filter_type skip_archival
        timeout answer w =
      ask "get_workflow_execution_history" "get_workflow_execution_history"
        (bridge_bug "get_workflow_execution_history") index_error
        (dumps (
          put_given "skip_archival" (O.map boolean skip_archival) (
            put_given "event_filter_type" (O.map number event_filter_type) (
              ("workflow_id", text workflow_id)
              ∷ ("run_id", or_null run_id)
              ∷ ("next_page_token", numbers next_page_token)
              ∷ []))))
        timeout answer w

  unfoldable pub cancel_workflow_execution :
      (workflow_id : String) (run_id first_execution_run_id : Option String) (timeout : Option ℕ)
      → Answer
      → TrioBridgeWrapper
      → Ending Object (Unit {0}) × TrioBridgeWrapper
  cancel_workflow_execution workflow_id run_id first_execution_run_id timeout answer w =
      tell "cancel_workflow" "cancel_workflow_execution" ""
        (dumps (
          put_given "first_execution_run_id" (O.map text first_execution_run_id)
            (execution workflow_id run_id)))
        timeout answer w

  unfoldable pub terminate_workflow_execution :
      (workflow_id : String) (run_id : Option String) (reason : String)
      (first_execution_run_id : Option String) (details_payloads_bytes : Option Bytes)
      (timeout : Option ℕ)
      → Answer
      → TrioBridgeWrapper
      → Ending Object (Unit {0}) × TrioBridgeWrapper
  terminate_workflow_execution workflow_id run_id reason first_execution_run_id
        details_payloads_bytes timeout answer w =
      tell "terminate_workflow" "terminate_workflow_execution" ""
        (dumps (
          put_given "details_bytes" (O.map numbers details_payloads_bytes) (
            put_given "first_execution_run_id" (O.map text first_execution_run_id) (
              ("workflow_id", text workflow_id)
              ∷ ("run_id", or_null run_id)
              ∷ ("reason", text reason)
              ∷ []))))
        timeout answer w

  unfoldable pub query_workflow :
      (workflow_id : String) (run_id : Option String) (query_type : String) (args_bytes : Bytes)
      (reject_condition : Option ℕ) (timeout : Option ℕ)
      → Answer
      → TrioBridgeWrapper
      → Ending Object Bytes × TrioBridgeWrapper
  query_workflow workflow_id run_id query_type args_bytes reject_condition timeout answer w =
      ask "query_workflow" "query_workflow" (bridge_bug "query_workflow") index_error
        (dumps (
          put_given "reject_condition" (O.map number reject_condition) (
            ("workflow_id", text workflow_id)
            ∷ ("run_id", or_null run_id)
            ∷ ("query_type", text query_type)
            ∷ ("args_bytes", numbers args_bytes)
            ∷ [])))
        timeout answer w

  unfoldable pub signal_workflow :
      (workflow_id : String) (run_id : Option String) (signal_name : String) (args_bytes : Bytes)
      (timeout : Option ℕ)
      → Answer
      → TrioBridgeWrapper
      → Ending Object (Unit {0}) × TrioBridgeWrapper
  signal_workflow workflow_id run_id signal_name args_bytes timeout answer w =
      tell "signal_workflow" "signal_workflow" ""
        (dumps (
          ("workflow_id", text workflow_id)
          ∷ ("run_id", or_null run_id)
          ∷ ("signal_name", text signal_name)
          ∷ ("args_bytes", numbers args_bytes)
          ∷ []))
        timeout answer w

  unfoldable pub describe_workflow :
      (workflow_id : String) (run_id : Option String) (timeout : Option ℕ)
      → Answer
      → TrioBridgeWrapper
      → Ending Object Bytes × TrioBridgeWrapper
  describe_workflow workflow_id run_id timeout answer w =
      ask "describe_workflow" "describe_workflow" (without_data "describe_workflow")
        (runtime_error "describe_workflow returned no result")
        (dumps (execution workflow_id run_id)) timeout answer w
