-- ===== src/AsyncBridge/Worker.antt =====
-- temporalio_trio/_async_bridge.py: the operations of a worker.
use python_trio_sdk.Common.{ℕ, Bool, String, Option, none, some, [], ◌∷◌}
use python_trio_sdk.Common.Dict.{Dict}
use python_trio_sdk.Host.{Exception, Result, ok, err, index_error}
use python_trio_sdk.AsyncBridge.State.{
  Bytes, TrioBridgeWrapper, RequestResult, Answer, Ending, raised, check_running,
  check_can_complete,
}
use python_trio_sdk.AsyncBridge.Exchange.{
  Containers, exchange, checked, bridge_bug, without_data, deliver_data, deliver_done, take_result,
  take_done, ask, tell,
}
use python_trio_sdk.AsyncBridge.Prefix.{Utf8, worker_bytes, prefixed}
use python_trio_sdk.AsyncBridge.Json.{
  Json, Dumps, text, number, boolean, object, put_given, or_empty,
}
use mathlib.Core.Option as O

-- The parameters of initialize_with_config and create_worker that both put into the configuration.
pub record WorkerConfig (Object : Type 0) : Type 0 where
  pub namespace : String
  pub task_queue : String
  pub identity : Option String
  pub max_cached_workflows : ℕ
  pub max_concurrent_workflow_task_polls : ℕ
  pub nonsticky_to_sticky_poll_ratio : Object
  pub max_concurrent_activity_task_polls : ℕ
  pub no_remote_activities : Bool
  pub sticky_queue_schedule_to_start_timeout_millis : ℕ
  pub max_heartbeat_throttle_interval_millis : ℕ
  pub default_heartbeat_throttle_interval_millis : ℕ
  pub max_activities_per_second : Option Object
  pub max_task_queue_activities_per_second : Option Object
  pub graceful_shutdown_period_millis : Option ℕ
  pub max_concurrent_workflow_tasks : Option ℕ
  pub max_concurrent_activities : Option ℕ
  pub max_concurrent_local_activities : Option ℕ
  pub build_id : Option String
  pub telemetry : Option Object

module _ {Object : Type 0} where
  -- `data` may be too long for its length prefix.
  unfoldable pub with_data :
      {A : Type 0}
      → Result Object Bytes
      → (Bytes → Ending Object A × TrioBridgeWrapper)
      → TrioBridgeWrapper
      → Ending Object A × TrioBridgeWrapper
  with_data (ok payload) send w = send payload
  with_data (err e) send w = (raised e, w)

  unfoldable pub worker_config : WorkerConfig Object → Dict String (Json Object)
  worker_config p = put_given "telemetry" (O.map object p.telemetry) (
      put_given "build_id" (O.map text p.build_id) (
        put_given "max_concurrent_local_activities" (O.map number p.max_concurrent_local_activities)
          (put_given "max_concurrent_activities" (O.map number p.max_concurrent_activities) (
            put_given "max_concurrent_workflow_tasks" (O.map number p.max_concurrent_workflow_tasks)
              (put_given "graceful_shutdown_period_millis"
                (O.map number p.graceful_shutdown_period_millis)
                (put_given "max_task_queue_activities_per_second"
                  (O.map object p.max_task_queue_activities_per_second)
                  (put_given "max_activities_per_second" (O.map object p.max_activities_per_second)
                    always)))))))
    where
      always : Dict String (Json Object)
      always =
          ("namespace", text p.namespace)
          ∷ ("task_queue", text p.task_queue)
          ∷ ("identity", text (or_empty p.identity))
          ∷ ("max_cached_workflows", number p.max_cached_workflows)
          ∷ ("max_concurrent_workflow_task_polls", number p.max_concurrent_workflow_task_polls)
          ∷ ("nonsticky_to_sticky_poll_ratio", object p.nonsticky_to_sticky_poll_ratio)
          ∷ ("max_concurrent_activity_task_polls", number p.max_concurrent_activity_task_polls)
          ∷ ("no_remote_activities", boolean p.no_remote_activities)
          ∷ (
            "sticky_queue_schedule_to_start_timeout_millis",
            number p.sticky_queue_schedule_to_start_timeout_millis,
          )
          ∷ (
            "max_heartbeat_throttle_interval_millis",
            number p.max_heartbeat_throttle_interval_millis,
          )
          ∷ (
            "default_heartbeat_throttle_interval_millis",
            number p.default_heartbeat_throttle_interval_millis,
          )
          ∷ []

  -- The configuration of initialize_with_config starts with the target.
  unfoldable pub initialize_with_config :
      Dumps Object
      → (target_url : String) → WorkerConfig Object
      → (timeout : Option ℕ) → Answer
      → TrioBridgeWrapper
      → Ending Object (Unit {0}) × TrioBridgeWrapper
  initialize_with_config dumps target_url p timeout answer w =
      tell "initialize" "initialize_with_config" "Init failed: "
        (dumps (("target_url", text target_url) ∷ worker_config p)) timeout answer w

module _ {Object : Type 0} (u : Utf8) where
  -- The worker id comes back as UTF-8, and its bytes are kept here; `bad_utf8` is the error of `bytes.decode`.
  unfoldable pub deliver_worker_id :
      (bad_utf8 : Exception Object) → RequestResult → Containers Object
  deliver_worker_id bad_utf8 r =
      let c = deliver_data (without_data "create_worker") "create_worker failed: " r in
      elim c.result_container [
        | [] ↦ c
        | bytes ∷ _ ↦ elim (u.from_utf8 bytes) [
          | some _ ↦ c
          | none ↦ record { result_container = []; error_container = bad_utf8 ∷ [] }
        ]
      ]

  unfoldable pub create_worker :
      Dumps Object
      → (bad_utf8 : Exception Object) → WorkerConfig Object
      → (timeout : Option ℕ) → Answer
      → TrioBridgeWrapper
      → Ending Object Bytes × TrioBridgeWrapper
  create_worker dumps bad_utf8 p timeout answer w =
      checked (check_running w)
        (exchange "create_worker" "create_worker" (dumps (worker_config p))
          (deliver_worker_id bad_utf8) (take_result index_error) timeout answer w)
        w

  unfoldable pub poll_workflow_activation :
      (worker_id : Option String) (timeout : Option ℕ)
      → Answer
      → TrioBridgeWrapper
      → Ending Object Bytes × TrioBridgeWrapper
  poll_workflow_activation worker_id timeout answer w =
      ask "poll_activation" "poll_workflow_activation" (bridge_bug "poll_workflow_activation")
        index_error (worker_bytes u worker_id) timeout answer w

  unfoldable pub poll_activity_task :
      (worker_id : Option String) (timeout : Option ℕ)
      → Answer
      → TrioBridgeWrapper
      → Ending Object Bytes × TrioBridgeWrapper
  poll_activity_task worker_id timeout answer w =
      ask "poll_activity_task" "poll_activity_task" (bridge_bug "poll_activity_task") index_error
        (worker_bytes u worker_id) timeout answer w

  unfoldable pub complete_workflow_activation :
      (completion_bytes : Bytes) (worker_id : Option String) (timeout : Option ℕ)
      → Answer
      → TrioBridgeWrapper
      → Ending Object (Unit {0}) × TrioBridgeWrapper
  complete_workflow_activation completion_bytes worker_id timeout answer w =
      checked (check_can_complete w)
        (with_data (prefixed u worker_id completion_bytes)
          (λ payload.
            exchange "complete_activation" "complete_workflow_activation" payload
              (deliver_done "Complete activation failed: ") take_done timeout answer w)
          w)
        w

  unfoldable pub complete_activity_task :
      (completion_bytes : Bytes) (worker_id : Option String) (timeout : Option ℕ)
      → Answer
      → TrioBridgeWrapper
      → Ending Object (Unit {0}) × TrioBridgeWrapper
  complete_activity_task completion_bytes worker_id timeout answer w =
      checked (check_running w)
        (with_data (prefixed u worker_id completion_bytes)
          (λ payload.
            exchange "complete_activity_task" "complete_activity_task" payload
              (deliver_done "Complete activity task failed: ") take_done timeout answer w)
          w)
        w

  unfoldable pub record_activity_heartbeat :
      (heartbeat_bytes : Bytes) (worker_id : Option String) (timeout : Option ℕ)
      → Answer
      → TrioBridgeWrapper
      → Ending Object Bytes × TrioBridgeWrapper
  record_activity_heartbeat heartbeat_bytes worker_id timeout answer w =
      checked (check_running w)
        (with_data (prefixed u worker_id heartbeat_bytes)
          (λ payload.
            exchange "record_activity_heartbeat" "record_activity_heartbeat" payload
              (deliver_data (bridge_bug "record_activity_heartbeat") "") (take_result index_error)
              timeout answer w)
          w)
        w

module _ {Object : Type 0} where
  unfoldable pub validate :
      (timeout : Option ℕ)
      → Answer
      → TrioBridgeWrapper
      → Ending Object (Unit {0}) × TrioBridgeWrapper
  validate timeout answer w = tell "validate" "validate" "Validation failed: " [] timeout answer w
