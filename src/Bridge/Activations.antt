-- ===== src/Bridge/Activations.antt =====
-- temporalio_trio/worker/_bridge_types.py: `bridge_to_poc_activation`.
use python_trio_sdk.Common.{
  ℕ, Bool, true, false, String, concat, Option, none, some, List, [], ◌∷◌, ◌++◌, if◌then◌else◌,
  ◌==◌, ℕ_eq,
}
use python_trio_sdk.Host.{Result, ok, err, not_implemented_error}
use python_trio_sdk.Activation.{
  DoBackoff, WorkflowJob, WorkflowActivation, workflow_started, timer_fired, SignalWorkflowJob,
  QueryWorkflowJob, UpdateWorkflowJob, activity_resolved, child_workflow_resolved,
}
use python_trio_sdk.Activation
use python_trio_sdk.Bridge.Converters.{Converters, ◌>>=◌, each}
use python_trio_sdk.Bridge.Messages.{
  BridgeActivation, ActivationJob, SignalWorkflow, QueryWorkflow, DoUpdate, initialize_workflow,
  fire_timer, cancel_workflow, signal_workflow, query_workflow, resolve_activity,
  resolve_child_workflow_execution_start, resolve_child_workflow_execution,
  resolve_signal_external_workflow, resolve_request_cancel_external_workflow, do_update,
  notify_has_patch, remove_from_cache, other,
}
use python_trio_sdk.Bridge.Durations.{timestamp_ns}
use Start.{convert_initialize_workflow, or_none}
use Resolutions.{
  convert_resolve_activity, convert_resolve_child_workflow_start, convert_resolve_child_workflow,
  convert_resolve_signal_external_workflow, convert_resolve_cancel_external_workflow,
}
mod Start
mod Resolutions
unfoldable pub use Start.*
unfoldable pub use Resolutions.*

-- `int(rfc.reason) if rfc.reason else None`
unfoldable pub reason_of : ℕ → Option ℕ
reason_of reason = if reason == 0 then none else some reason

-- What the loop over the jobs collects.
pub record Collected (Object : Type 0) : Type 0 where
  pub poc_jobs : List (WorkflowJob Object)
  pub is_eviction : Bool
  pub eviction_reason : Option ℕ
  pub eviction_message : Option String

abbrev pub nothing_collected : {Object : Type 0} → Collected Object
nothing_collected = record {
  poc_jobs = [];
  is_eviction = false;
  eviction_reason = none;
  eviction_message = none;
}

module _ {Object : Type 0} where
  unfoldable pub append : Option (WorkflowJob Object) → Collected Object → Collected Object
  append none acc = acc
  append (some job) acc = record acc { poc_jobs = acc.poc_jobs ++ job ∷ [] }

  unfoldable pub note_eviction : ActivationJob Object → Collected Object → Collected Object
  unfolding reason_of or_none
  note_eviction (remove_from_cache reason message) acc = record acc {
    is_eviction = true;
    eviction_reason = reason_of reason;
    eviction_message = or_none message;
  }
  note_eviction _ acc = acc

  unfoldable pub packed : BridgeActivation Object → Collected Object → WorkflowActivation Object
  unfolding timestamp_ns
  packed act acc = record {
    jobs = acc.poc_jobs;
    timestamp_ns = timestamp_ns act.timestamp;
    run_id = act.run_id;
    remove_from_cache = acc.is_eviction;
    eviction_reason = acc.eviction_reason;
    eviction_message = acc.eviction_message;
    is_replaying = act.is_replaying;
    randomness_seed = if act.randomness_seed == 0 then none else some act.randomness_seed;
  }

module _ {Object : Type 0} (c : Converters Object) (no_backoff : DoBackoff Object) where
  unfoldable pub convert_signal_workflow :
      SignalWorkflow Object → Result Object (SignalWorkflowJob Object)
  unfolding each
  convert_signal_workflow signal = do
    args ← each c.from_payload signal.input
    ok record { signal_name = signal.signal_name; args = args; headers = signal.headers }

  unfoldable pub convert_query_workflow :
      QueryWorkflow Object → Result Object (QueryWorkflowJob Object)
  unfolding each
  convert_query_workflow query = do
    args ← each c.from_payload query.arguments
    ok record {
      query_id = query.query_id;
      query_type = query.query_type;
      args = args;
      headers = query.headers;
    }

  unfoldable pub convert_do_update : DoUpdate Object → Result Object (UpdateWorkflowJob Object)
  unfolding each
  convert_do_update update = do
    args ← each c.from_payload update.input
    ok record {
      id = update.id;
      protocol_instance_id = update.protocol_instance_id;
      name = update.name;
      args = args;
      run_validator = update.run_validator;
      headers = update.headers;
    }

  -- The job that is appended for a job of the activation; none for `remove_from_cache`.
  unfoldable pub convert_job : ActivationJob Object → Result Object (Option (WorkflowJob Object))
  unfolding convert_initialize_workflow convert_signal_workflow convert_query_workflow
      convert_do_update convert_resolve_activity convert_resolve_child_workflow_start
      convert_resolve_child_workflow convert_resolve_signal_external_workflow
      convert_resolve_cancel_external_workflow
  convert_job (initialize_workflow init) = do
    job ← convert_initialize_workflow c init
    ok (some (workflow_started job))
  convert_job (fire_timer seq) = ok (some (timer_fired seq))
  convert_job cancel_workflow = ok (some (Activation.cancel_workflow []))
  convert_job (signal_workflow signal) = do
    job ← convert_signal_workflow signal
    ok (some (Activation.signal_workflow job))
  convert_job (query_workflow query) = do
    job ← convert_query_workflow query
    ok (some (Activation.query_workflow job))
  convert_job (resolve_activity seq result) =
      ok (some (activity_resolved (convert_resolve_activity c no_backoff seq result)))
  convert_job (resolve_child_workflow_execution_start seq status) = do
    job ← convert_resolve_child_workflow_start c seq status
    ok (some job)
  convert_job (resolve_child_workflow_execution seq result) = do
    job ← convert_resolve_child_workflow c seq result
    ok (some (child_workflow_resolved job))
  convert_job (resolve_signal_external_workflow seq failure) = do
    job ← convert_resolve_signal_external_workflow c seq failure
    ok (some job)
  convert_job (resolve_request_cancel_external_workflow seq failure) = do
    job ← convert_resolve_cancel_external_workflow c seq failure
    ok (some job)
  convert_job (do_update update) = do
    job ← convert_do_update update
    ok (some (Activation.update_workflow job))
  convert_job (notify_has_patch patch_id) = ok (some (Activation.notify_has_patch patch_id))
  convert_job (remove_from_cache reason message) = ok none
  convert_job (other name) = err (
      not_implemented_error (
        concat "Job type '"
          (concat name "' not yet supported. Please file an issue if this is needed.")))

  unfoldable pub collect_jobs :
      List (ActivationJob Object) → Collected Object → Result Object (Collected Object)
  unfolding convert_job append note_eviction
  collect_jobs [] acc = ok acc
  collect_jobs (job ∷ jobs) acc = do
    converted ← convert_job job
    collect_jobs jobs (append converted (note_eviction job acc))

  unfoldable pub bridge_to_poc_activation :
      BridgeActivation Object → Result Object (WorkflowActivation Object)
  unfolding collect_jobs packed
  bridge_to_poc_activation act = do
    acc ← collect_jobs act.jobs nothing_collected
    ok (packed act acc)
