-- ===== src/Runtime/PatchAnswers.antt =====
-- temporalio_trio/worker/_runtime.py: the answers of `workflow_patch`.
use python_trio_sdk.Common.{
  Bool, true, false, ◌≡◌, ◌≢◌, none, String, List, [], ◌∷◌, ◌++◌, if◌then◌else◌, string_eq, arith,
  eq_iff, Option-cases, inl, inr, ◌||◌, ◌==◌, refl,
}
use mathlib.Core.List.{append-nil}
use python_trio_sdk.Common.Dict
use python_trio_sdk.Common.Dict.{get-put}
use python_trio_sdk.Host.{Host}
use python_trio_sdk.Activation.{Command}
use python_trio_sdk.Runtime.State.{WorkflowRuntime}
use python_trio_sdk.Runtime.Patches.{contains, add, apply_notify_has_patch, workflow_patch}

contains-cons :
    (p : String) (patches : List String) (q : String)
    → contains (p ∷ patches) q ≡ (p == q || contains patches q)
unfolding contains
contains-cons p patches q = refl

contains-add :
    (patches : List String) (p q : String)
    → contains (add patches p) q ≡ (p == q || contains patches q)
unfolding add
contains-add patches p q = ground (arith, eq_iff p q, contains-cons p patches q)

module _ {h : Host} where
  -- The answer of the first call.
  abbrev answer : String → WorkflowRuntime h → Bool
  answer p rt = if rt.is_replaying then contains rt.patches_notified p else true

  -- Asking again for the same patch, deprecated or not, gives the first answer and changes nothing.
  patch_again :
      (p : String) (deprecated again : Bool) (rt : WorkflowRuntime h)
      → workflow_patch p again (workflow_patch p deprecated rt).1 ≡ workflow_patch p deprecated rt
  unfolding workflow_patch
  patch_again p deprecated again rt = elim (Option-cases (Dict.get rt.patches_memoized p)) [
    | inl e ↦ ground (arith, e, get-put rt.patches_memoized p p (answer p rt), eq_iff p p)
    | inr (x, e) ↦ rw (e, workflow_patch) (ground (arith, e))
  ]

  -- The answer to a patch that has no answer yet, and its commands: on replay it says whether the
  -- history has the patch, and emits nothing; else it is true, and one marker is emitted.
  pub patch_first :
      (p : String) (deprecated : Bool) (rt : WorkflowRuntime h)
      → Dict.get rt.patches_memoized p ≡ none
      → ((workflow_patch p deprecated rt).0
          ≡ (if rt.is_replaying then contains rt.patches_notified p else true))
        × ((workflow_patch p deprecated rt).1.commands
            ≡ rt.commands
              ++ (if rt.is_replaying then [] else Command.set_patch_marker p deprecated ∷ []))
  unfolding workflow_patch
  patch_first p deprecated rt n = ground (arith, n, append-nil rt.commands)

  -- A patch that is asked for does not change the answer to another one.
  patch_other :
      (p q : String) (deprecated other : Bool) (rt : WorkflowRuntime h)
      → p ≢ q
      → (workflow_patch q other (workflow_patch p deprecated rt).1).0
        ≡ (workflow_patch q other rt).0
  unfolding workflow_patch
  patch_other p q deprecated other rt ne =
      ground (arith, ne, get-put rt.patches_memoized p q (answer p rt), eq_iff p q)

  -- A marker that is emitted in a live run gives the same answer on replay: where the history of the
  -- replay has been notified of p, and p has no answer yet, the answer is the true of the live run.
  pub patch_replays :
      (p : String) (deprecated : Bool) (live replay : WorkflowRuntime h)
      → live.is_replaying ≡ false
      → Dict.get live.patches_memoized p ≡ none
      → Dict.get replay.patches_memoized p ≡ none
      → (workflow_patch p deprecated (apply_notify_has_patch p replay)).0
        ≡ (workflow_patch p deprecated live).0
  unfolding workflow_patch apply_notify_has_patch
  patch_replays p deprecated live replay l n m =
      ground (arith, l, n, m, contains-add replay.patches_notified p p, eq_iff p p)
