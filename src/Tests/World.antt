-- ===== src/Tests/World.antt =====
-- A host whose objects are numbers and whose events are Booleans, workflow code for it, and states.
use python_trio_sdk.Common.{
  ℕ, ◌+◌, ◌*◌, ◌/◌, zero, suc, Bool, true, false, refl, none, some, List, [], ◌∷◌,
}
use python_trio_sdk.Host.{Host, Result, ok, err, raised, cancelled}
use python_trio_sdk.Activation.{
  WorkflowActivation, WorkflowJob, WorkflowStartedJob, QueryWorkflowJob, UpdateWorkflowJob,
  SignalWorkflowJob, ActivityResolvedJob, completed, ChildWorkflowStartFailedJob, text, DoBackoff,
}
use python_trio_sdk.Runtime.State.{WorkflowRuntime, Identity}
use python_trio_sdk.Runtime.New.{new_runtime}
use python_trio_sdk.Worker.Register.{Definition}
use python_trio_sdk.Worker.Code.{returned, coroutine, failed, Caller, Code, Settings}
use python_trio_sdk.Worker.State.{WorkflowState}
use python_trio_sdk.Worker.Dispatch.{Worker}

abbrev pub world : Host
world = record {
  Object = ℕ;
  none_object = 0;
  Event = Bool;
  new_event = false;
  set = λ _. true;
  is_set = λ e. e;
  is_set-new = refl;
  is_set-set = λ _. refl;
  to_payloads = λ _ args. ok args;
  to_payload = λ _ _. ok 0;
  from_payload = λ _ payload _. ok payload;
  from_failure = λ _ failure. err (raised failure);
  whole_ms = λ seconds nanos. seconds * 1000 + nanos / 1000000;
  str = λ _. "1";
  already_exists = 1;
}

abbrev pub identity : Identity ℕ
identity = record {
  run_id = "r";
  workflow_id = "w";
  workflow_type = "Greet";
  task_queue = "q";
  namespace = "default";
  attempt = 1;
  start_time_ns = 3;
  execution_timeout_ms = none;
  run_timeout_ms = none;
  task_timeout_ms = none;
  retry_policy_obj = none;
  continued_run_id = none;
  cron_schedule = none;
  parent_namespace = none;
  parent_workflow_id = none;
  parent_run_id = none;
  root_workflow_id = none;
  root_run_id = none;
  headers = [];
  raw_memo = [];
  priority = 0;
  first_execution_run_id = "r";
  search_attributes_data = 0;
  typed_search_attributes_data = 0;
  workflow_start_time_ns = 3;
  disable_eager_activity_execution = false;
}

abbrev pub fresh : WorkflowRuntime world
unfolding new_runtime
fresh = new_runtime world identity 5 false true

-- 0 is a plain function, 1 a coroutine function, and every other number raises itself.
abbrev pub call : Caller world
call zero args rt = (returned 9, rt)
call (suc zero) args rt = (coroutine 4, rt)
call (suc (suc n)) args rt = (failed (raised (suc (suc n))), rt)

abbrev pub handling : WorkflowRuntime world → WorkflowRuntime world
handling rt = record rt {
  query_handlers = (some "get", 0) ∷ [];
  update_handlers = (some "set", 1) ∷ [];
  signal_handlers = (some "go", 1) ∷ [];
}

abbrev pub greet : Definition ℕ
greet = record {
  signals = (some "go", 1) ∷ (none, 0) ∷ [];
  queries = (some "get", 0) ∷ [];
  updates = (some "set", (1, none)) ∷ [];
}

abbrev pub code : Code world
code = record {
  call = call;
  workflows = (some "Greet", greet) ∷ [];
  construct = λ defn. ok defn;
  settle = λ rt. (none, rt);
  settle_others = λ rt. rt;
  cancel_tasks = λ rt. (some (err cancelled), rt);
  group = λ e. e;
  apply_command = λ _ rt. rt;
}

abbrev pub settings : Settings
settings = record { task_queue = "q"; disable_eager_activity_execution = false }

abbrev pub started : WorkflowStartedJob ℕ
started = record {
  workflow_type = "Greet";
  args = [];
  workflow_id = "w";
  headers = [];
  namespace = "default";
  attempt = 1;
  start_time_ns = 3;
  execution_timeout_ms = none;
  run_timeout_ms = none;
  task_timeout_ms = none;
  retry_policy = none;
  continued_run_id = none;
  cron_schedule = none;
  parent_namespace = none;
  parent_workflow_id = none;
  parent_run_id = none;
  root_workflow_id = none;
  root_run_id = none;
  raw_memo = [];
  priority = 0;
  first_execution_run_id = "r";
  search_attributes = 0;
  typed_search_attributes = 0;
  workflow_start_time_ns = 3;
}

abbrev pub activation : Bool → List (WorkflowJob ℕ) → WorkflowActivation ℕ
activation evicts jobs = record {
  jobs = jobs;
  timestamp_ns = 8;
  run_id = "r";
  remove_from_cache = evicts;
  eviction_reason = none;
  eviction_message = none;
  is_replaying = false;
  randomness_seed = none;
}

abbrev pub query : QueryWorkflowJob ℕ
query = record { query_id = "1"; query_type = "get"; args = []; headers = [] }

abbrev pub update : UpdateWorkflowJob ℕ
update = record {
  id = "u1";
  protocol_instance_id = "p1";
  name = "set";
  args = 7 ∷ [];
  run_validator = true;
  headers = [];
}

abbrev pub signal : SignalWorkflowJob ℕ
signal = record { signal_name = "go"; args = []; headers = [] }

abbrev pub backoff : DoBackoff ℕ
backoff = record { attempt = 2; seconds = 1; nanos = 0; original_schedule_time = 0 }

abbrev pub resolved : ActivityResolvedJob ℕ
resolved = record {
  seq = 1;
  status = completed;
  result_payload = some 6;
  failure_proto = none;
  backoff = backoff;
}

abbrev pub start_failed : ChildWorkflowStartFailedJob ℕ
start_failed = record {
  seq = 1;
  workflow_id = "child";
  workflow_type = "Child";
  cause = text "exists";
}

-- The state of a run whose task waits for its next activation.
abbrev pub waiting : WorkflowState world
waiting = record {
  run_id = "r";
  runtime = some (handling fresh);
  pending_activation = none;
  activation_event = false;
  commands_ready = false;
  is_complete = false;
  completion_result = 0;
}

abbrev pub complete : WorkflowState world
complete = record waiting { is_complete = true; completion_result = 9 }

abbrev pub no_runs : Worker world
no_runs = record { workflow_states = []; completions = []; crashed = none }

abbrev pub with_run : WorkflowState world → Worker world
with_run state = record { workflow_states = ("r", state) ∷ []; completions = []; crashed = none }

-- The state that a task leaves.
abbrev pub state_of : Result ℕ (WorkflowState world) → WorkflowState world
state_of (ok state) = state
state_of (err _) = waiting
