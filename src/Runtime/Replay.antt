-- ===== src/Runtime/Replay.antt =====
-- temporalio_trio/worker/_runtime.py: calls whose outcome is recorded, calls that wait for it, and
-- the way from the one to the other.
use python_trio_sdk.Common.{◌+◌, ℕ_eq}
use python_trio_sdk.Common.Dict
use python_trio_sdk.Host.{Host}
use python_trio_sdk.Activation.{Command}
use python_trio_sdk.Runtime.State.{WorkflowRuntime, Outcome}

module _ {h : Host} where
  module _ (command : Command h.Object) (x : Outcome h.Object) (rt : WorkflowRuntime h) where
    abbrev issued : WorkflowRuntime h
    issued = record rt { activity_seq = rt.activity_seq + 1 }
