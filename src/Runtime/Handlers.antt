-- ===== src/Runtime/Handlers.antt =====
-- temporalio_trio/worker/_runtime.py: the handlers of signals, queries and updates.
use python_trio_sdk.Common.{Bool, true, Option, none, some, String, [], ◌∷◌, name_eq}
use python_trio_sdk.Common.Dict
use python_trio_sdk.Common.Dict.{Dict}
use python_trio_sdk.Host.{Host}
use python_trio_sdk.Runtime.State.{WorkflowRuntime}

-- `handlers.pop(name, None)` for None, else `handlers[name] = handler`
abbrev pub set_handler :
    {Object : Type 0}
    → Dict (Option String) Object
    → Option String
    → Option Object
    → Dict (Option String) Object
set_handler handlers name none = Dict.remove handlers name
set_handler handlers name (some handler) = Dict.put handlers name handler

-- `if validator is not None: validators[name] = validator`
abbrev pub add_validator :
    {Object : Type 0}
    → Dict (Option String) Object
    → Option String
    → Option Object
    → Dict (Option String) Object
add_validator validators name none = validators
add_validator validators name (some validator) = Dict.put validators name validator

module _ {h : Host} where
  unfoldable pub workflow_set_signal_handler :
      Option String → Option h.Object → WorkflowRuntime h → WorkflowRuntime h
  workflow_set_signal_handler name handler rt = record rt {
    signal_handlers = set_handler rt.signal_handlers name handler;
  }

  unfoldable pub workflow_set_query_handler :
      Option String → Option h.Object → WorkflowRuntime h → WorkflowRuntime h
  workflow_set_query_handler name handler rt = record rt {
    query_handlers = set_handler rt.query_handlers name handler;
  }

  unfoldable pub register_update_handler :
      Option String
      → h.Object
      → (validator : Option h.Object) → WorkflowRuntime h
      → WorkflowRuntime h
  register_update_handler name handler validator rt = record rt {
    update_handlers = Dict.put rt.update_handlers name handler;
    update_validators = add_validator rt.update_validators name validator;
  }

  unfoldable pub workflow_set_update_handler :
      Option String
      → Option h.Object
      → (validator : Option h.Object) → WorkflowRuntime h
      → WorkflowRuntime h
  unfolding register_update_handler
  workflow_set_update_handler name none validator rt = record rt {
    update_handlers = Dict.remove rt.update_handlers name;
    update_validators = Dict.remove rt.update_validators name;
  }
  workflow_set_update_handler name (some handler) validator rt =
      register_update_handler name handler validator rt

  -- `len(self.in_progress_updates) == 0`
  unfoldable pub workflow_all_handlers_finished : WorkflowRuntime h → Bool
  workflow_all_handlers_finished rt = elim rt.in_progress_updates [ [] ↦ true | _ ∷ _ ↦ Bool.false ]
