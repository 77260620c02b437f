-- ===== src/Host.antt =====
-- What the SDK takes from outside the repository: Python objects that it does not look into
-- (arguments, results, payloads, policies), `trio.Event`, and the payload and failure converters of
-- `temporalio.converter`. They are the parameter of every module that uses them.
use python_trio_sdk.Common.{ℕ, Bool, true, false, ◌≡◌, String, Option, List}

-- Exceptions: those that the SDK raises itself, and `raised` for one that comes from outside.
pub data Exception (Object : Type 0) : Type 0 where
  -- trio.Cancelled and ContinueAsNewError are no subclasses of Python's `Exception`
  cancelled : Exception Object
  continue_as_new_error : Object → Exception Object
  key_error : ℕ → Exception Object
  index_error : Exception Object
  value_error : String → Exception Object
  type_error : String → Exception Object
  runtime_error : String → Exception Object
  timeout_error : Exception Object
  read_only_context_error : String → Exception Object
  not_implemented_error : String → Exception Object
  overflow_error : Exception Object
  -- trio.TooSlowError
  too_slow_error : String → Exception Object
  workflow_already_started_error : String → String → Exception Object
  raised : Object → Exception Object

-- caught by `except Exception`
abbrev pub is_exception : {Object : Type 0} → Exception Object → Bool
is_exception cancelled = false
is_exception (continue_as_new_error _) = false
is_exception _ = true

-- What a call returns or raises.
pub data Result (Object : Type 0) (A : Type 0) : Type 0 where
  ok : A → Result Object A
  err : Exception Object → Result Object A

-- The context objects that a converter may look at, by the fields that the SDK fills in.
pub data SerializationContext : Type 0 where
  activity_context :
      (namespace workflow_id workflow_type activity_type : String)
      → (activity_id : Option String) → (activity_task_queue : String) → (is_local : Bool)
      → SerializationContext
  workflow_context : (namespace workflow_id : String) → SerializationContext
  -- the converter as it is, without `with_context`
  no_context : SerializationContext

-- The laws say of an event that it starts unset and that `set()` sets it.
pub record Host : Type 1 where
  pub Object : Type 0
  pub none_object : Object
  pub Event : Type 0
  pub new_event : Event
  pub set : Event → Event
  pub is_set : Event → Bool
  pub is_set-new : is_set new_event ≡ false
  pub is_set-set : (e : Event) → is_set (set e) ≡ true
  pub to_payloads : SerializationContext → List Object → Result Object (List Object)
  pub to_payload : SerializationContext → String → Result Object Object
  -- the payload and the type hint, if there is one
  pub from_payload : SerializationContext → Object → Option Object → Result Object Object
  pub from_failure : SerializationContext → Object → Result Object Object
  -- `int((seconds + nanos / 1e9) * 1000)`, in floating point
  pub whole_ms : (seconds nanos : ℕ) → ℕ
  pub str : ℕ → String
  -- START_CHILD_WORKFLOW_EXECUTION_FAILED_CAUSE_WORKFLOW_ALREADY_EXISTS
  pub already_exists : ℕ
