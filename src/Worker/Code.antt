-- ===== src/Worker/Code.antt =====
-- The workflow code that a worker runs: the definitions of the user, and how trio runs their tasks.
use python_trio_sdk.Common.{Bool, Option, String, List}
use python_trio_sdk.Common.Dict.{Dict}
use python_trio_sdk.Host.{Host, Exception, Result}
use python_trio_sdk.Runtime.State.{WorkflowRuntime}
use python_trio_sdk.Worker.Register.{Definition}

-- What `handler(*args)` gives: a plain value, a coroutine object, or an exception.
pub data Call (Object : Type 0) : Type 0 where
  returned : Object → Call Object
  coroutine : Object → Call Object
  failed : Exception Object → Call Object

-- A call may use the runtime, and change it.
abbrev pub Caller : Host → Type 0
Caller h = h.Object → List h.Object → WorkflowRuntime h → Call h.Object × WorkflowRuntime h

pub record Code (h : Host) : Type 0 where
  pub call : Caller h
  -- the definitions by workflow type; None is the type of a dynamic workflow
  pub workflows : Dict (Option String) (Definition h.Object)
  -- `defn.cls()`: the handlers bound to the new object
  pub construct : Definition h.Object → Result h.Object (Definition h.Object)
  -- wait_all_tasks_blocked while the run method is not over: it ends, or every task is blocked
  pub settle : WorkflowRuntime h → Option (Result h.Object h.Object) × WorkflowRuntime h
  -- the same for the other tasks once the run method is over
  pub settle_others : WorkflowRuntime h → WorkflowRuntime h
  -- The nursery is cancelled, and its tasks run to their end, without a call of the runtime that waits
  -- again; what the run method ended with, if it was running.
  pub cancel_tasks : WorkflowRuntime h → Option (Result h.Object h.Object) × WorkflowRuntime h
  -- the exception group that the nursery raises for an exception of its body
  pub group : Exception h.Object → Exception h.Object
  -- `e._apply_command(runtime.commands)` of a ContinueAsNewError
  pub apply_command : h.Object → WorkflowRuntime h → WorkflowRuntime h

-- The attributes of SingleThreadWorker that a runtime is created with.
pub record Settings : Type 0 where
  pub task_queue : String
  pub disable_eager_activity_execution : Bool
