-- ===== src/Tests/Converting.antt =====
-- Converters whose payloads are numbers, and fractions in place of doubles.
use python_trio_sdk.Common.{
  ℕ, zero, suc, ◌+◌, ◌-◌, ◌*◌, ◌/◌, ◌<◌, ◌≡◌, ap, ◌∙◌, false, none, some, List, [], ◌∷◌, arith,
  ℕ_eq, string_eq,
}
use python_trio_sdk.Host.{Result, ok, err, raised}
use native.Mathlib.Nat.{mul-div_cancel}
use python_trio_sdk.Bridge.Converters.{Floats, Converters}
use python_trio_sdk.Bridge.Messages.{
  BridgeActivation, ActivationJob, SignalWorkflow, InitializeWorkflow,
}
use python_trio_sdk.Bridge.Commands.{StartChild}
use python_trio_sdk.Runtime.Children.Requests.{StartChildWorkflowInput}

pub div_of_sum : (a k d : ℕ) → 0 < d → (a * d + k * d) / d ≡ a + k
div_of_sum a k d p = ap (λ x. x / d) (sums a k d) ∙ mul-div_cancel (a + k) p
  where
    sums : (a k d : ℕ) → a * d + k * d ≡ (a + k) * d
    sums a k d = grind arith

-- Numbers with a fraction as a numerator and a denominator, in place of doubles.
abbrev pub fractions : Floats
fractions = record {
  Float = ℕ × ℕ;
  int = λ x. x.0 / x.1;
  quotient = λ a b. (a, b);
  plus = λ a x. (a * x.1 + x.0, x.1);
  minus = λ x a. (x.0 - a * x.1, x.1);
  times = λ x a. (x.0 * a, x.1);
  total_seconds = λ ms. (ms, 1000);
  int-plus = λ a k d p _. div_of_sum a k d p;
}

-- Payloads are numbers and pass unchanged; the payload 0 is refused.
abbrev pub converters : Converters ℕ
converters = record {
  floats = fractions;
  from_payload = decode;
  to_payload = λ x. ok x;
  to_payloads = λ xs. ok xs;
  string = λ _. 5;
  to_failure = λ _. ok 6;
  from_failure = λ f. ok (raised f);
  byte_size = λ x. x;
  failure_message = λ _. "";
  message = λ _. "error";
  policy_from_proto = λ x. x;
  policy_to_proto = λ x. ok x;
  default_priority = 0;
  priority_from_proto = λ x. x;
  priority_to_proto = λ x. x;
  decode_search_attributes = λ x. x;
  decode_typed_search_attributes = λ x. x;
  is_typed = λ _. false;
  pairs = λ _. [];
  items = λ _. [];
  encode_typed_search_attribute_value = λ x. ok x;
  encode_search_attribute_values = λ x. ok x;
  extend = λ xs. ok xs;
  apply_headers = λ d. d;
}
  where
    decode : ℕ → Result ℕ ℕ
    decode zero = err (raised 0)
    decode (suc n) = ok (suc n)

abbrev pub bridge_activation : List (ActivationJob ℕ) → BridgeActivation ℕ
bridge_activation jobs = record {
  jobs = jobs;
  timestamp = record { seconds = 1; nanos = 2 };
  run_id = "r";
  is_replaying = false;
  randomness_seed = 0;
}

abbrev pub signal_of : ℕ → SignalWorkflow ℕ
signal_of payload = record { signal_name = "go"; input = payload ∷ []; headers = [] }

abbrev pub init : InitializeWorkflow ℕ
init = record {
  workflow_type = "Greet";
  workflow_id = "w";
  arguments = 2 ∷ [];
  headers = [];
  attempt = 0;
  workflow_execution_timeout = none;
  workflow_run_timeout = some record { seconds = 4; nanos = 0 };
  workflow_task_timeout = none;
  retry_policy = none;
  start_time = none;
  parent_workflow_info = none;
  root_workflow = none;
  memo = none;
  priority = none;
  search_attributes = 0;
  continued_from_execution_run_id = "";
  cron_schedule = "";
  first_execution_run_id = "r";
}

abbrev pub child_input : StartChildWorkflowInput ℕ
child_input = record {
  workflow = "Child";
  args = [];
  id = "child";
  task_queue = none;
  cancellation_type = 0;
  parent_close_policy = 0;
  execution_timeout = none;
  run_timeout = none;
  task_timeout = none;
  id_reuse_policy = 0;
  retry_policy = none;
  cron_schedule = "";
  memo = none;
  search_attributes = none;
  headers = [];
  arg_types = none;
  ret_type = none;
  versioning_intent = none;
  static_summary = none;
  static_details = none;
  priority = 0;
}

-- The message for that child, as the first request of a run.
abbrev pub child_message : StartChild ℕ
child_message = record {
  seq = 1;
  namespace = "default";
  workflow_id = "child";
  workflow_type = "Child";
  task_queue = "q";
  input = [];
  workflow_execution_timeout = none;
  workflow_run_timeout = none;
  workflow_task_timeout = none;
  parent_close_policy = 0;
  cancellation_type = 0;
  workflow_id_reuse_policy = 0;
  retry_policy = none;
  cron_schedule = "";
  memo = [];
  search_attributes = [];
  headers = [];
  versioning_intent = 0;
  priority = some 0;
}
