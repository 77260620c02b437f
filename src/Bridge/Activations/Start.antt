-- ===== src/Bridge/Activations/Start.antt =====
-- temporalio_trio/worker/_bridge_types.py: `_convert_initialize_workflow`.
use python_trio_sdk.Common.{
  ℕ, String, Option, none, some, if◌then◌else◌, ◌==◌, ℕ_eq, string_eq, List, [],
}
use python_trio_sdk.Common.Dict.{Dict}
use python_trio_sdk.Host.{Result, ok}
use python_trio_sdk.Activation.{WorkflowStartedJob}
use python_trio_sdk.Bridge.Converters.{Converters, ◌>>=◌, each}
use python_trio_sdk.Bridge.Messages.{InitializeWorkflow, Duration}
use python_trio_sdk.Bridge.Durations.{timestamp_ns, timeout_ms}
use mathlib.Core.Option as O

-- `s or None`
unfoldable pub or_none : String → Option String
or_none s = if s == "" then none else some s

unfoldable pub start_ns : Option Duration → ℕ
unfolding timestamp_ns
start_ns none = 0
start_ns (some t) = timestamp_ns t

unfoldable pub memo_fields : {Object : Type 0} → Option (Dict String Object) → Dict String Object
memo_fields none = []
memo_fields (some fields) = fields

module _ {Object : Type 0} (c : Converters Object) where
  unfoldable pub priority_of : Option Object → Object
  priority_of none = c.default_priority
  priority_of (some p) = c.priority_from_proto p

  -- A message in a field is true in Python, so the search attributes are always decoded.
  unfoldable pub started : InitializeWorkflow Object → List Object → WorkflowStartedJob Object
  unfolding or_none start_ns memo_fields priority_of timeout_ms
  started init args = record {
    workflow_type = init.workflow_type;
    args = args;
    workflow_id = init.workflow_id;
    headers = init.headers;
    namespace = "default";
    attempt = if init.attempt == 0 then 1 else init.attempt;
    start_time_ns = start_ns init.start_time;
    execution_timeout_ms = O.map (timeout_ms c.floats) init.workflow_execution_timeout;
    run_timeout_ms = O.map (timeout_ms c.floats) init.workflow_run_timeout;
    task_timeout_ms = O.map (timeout_ms c.floats) init.workflow_task_timeout;
    retry_policy = O.map c.policy_from_proto init.retry_policy;
    continued_run_id = or_none init.continued_from_execution_run_id;
    cron_schedule = or_none init.cron_schedule;
    parent_namespace = O.map (λ p. p.namespace) init.parent_workflow_info;
    parent_workflow_id = O.map (λ p. p.workflow_id) init.parent_workflow_info;
    parent_run_id = O.map (λ p. p.run_id) init.parent_workflow_info;
    root_workflow_id = O.map (λ r. r.workflow_id) init.root_workflow;
    root_run_id = O.map (λ r. r.run_id) init.root_workflow;
    raw_memo = memo_fields init.memo;
    priority = priority_of init.priority;
    first_execution_run_id = init.first_execution_run_id;
    search_attributes = c.decode_search_attributes init.search_attributes;
    typed_search_attributes = c.decode_typed_search_attributes init.search_attributes;
    workflow_start_time_ns = start_ns init.start_time;
  }

  unfoldable pub convert_initialize_workflow :
      InitializeWorkflow Object → Result Object (WorkflowStartedJob Object)
  unfolding started each
  convert_initialize_workflow init = do
    args ← each c.from_payload init.arguments
    ok (started init args)
