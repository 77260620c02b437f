-- ===== src/Runtime/Patches.antt =====
-- temporalio_trio/worker/_runtime.py: patch markers.
use python_trio_sdk.Common.{
  Bool, true, false, ◌||◌, String, none, some, List, [], ◌∷◌, if◌then◌else◌, string_eq, ◌==◌,
}
use python_trio_sdk.Common.Dict
use python_trio_sdk.Host.{Host}
use python_trio_sdk.Activation.{Command}
use python_trio_sdk.Runtime.State.{WorkflowRuntime, emit}

-- `patch_id in patches`, and `patches.add(patch_id)`
unfoldable pub contains : List String → String → Bool
contains [] p = false
contains (q ∷ patches) p = q == p || contains patches p

unfoldable pub add : List String → String → List String
unfolding contains
add patches p = if contains patches p then patches else p ∷ patches

module _ {h : Host} where
  unfoldable pub apply_notify_has_patch : String → WorkflowRuntime h → WorkflowRuntime h
  apply_notify_has_patch patch_id rt = record rt {
    patches_notified = add rt.patches_notified patch_id;
  }

  unfoldable pub workflow_patch : String → Bool → WorkflowRuntime h → Bool × WorkflowRuntime h
  workflow_patch patch_id deprecated rt = elim (Dict.get rt.patches_memoized patch_id) [
    | some result ↦ (result, rt)
    | none ↦
        let result = if rt.is_replaying then contains rt.patches_notified patch_id else true in
        let rt' =
          if rt.is_replaying then rt else emit (Command.set_patch_marker patch_id deprecated) rt in
        (result, record rt' { patches_memoized = Dict.put rt'.patches_memoized patch_id result })
  ]
