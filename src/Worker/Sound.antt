-- ===== src/Worker/Sound.antt =====
-- temporalio_trio/worker/_single_thread_worker.py: the invariant of a run and the jobs of an
-- activation, handlers included.
use python_trio_sdk.Common.{◌≤◌, List, [], ◌∷◌, ℕ, name_eq, string_eq}
use python_trio_sdk.Common.Dict
use python_trio_sdk.Host.{Host, Result}
use python_trio_sdk.Activation.{
  WorkflowJob, timer_fired, activity_resolved, child_workflow_started, child_workflow_start_failed,
  child_workflow_resolved, signal_external_resolved,
}
use python_trio_sdk.Runtime.State.{WorkflowRuntime}
use python_trio_sdk.Runtime.Moves.{Reach}
use python_trio_sdk.Worker.Code.{Caller}
use python_trio_sdk.Worker.Apply.{apply_job}

module _ {h : Host} where
  -- The number that a job carries was given out.
  abbrev pub Issued : WorkflowJob h.Object → WorkflowRuntime h → Type 0
  Issued (timer_fired seq) rt = seq ≤ rt.timer_seq
  Issued (activity_resolved job) rt = job.seq ≤ rt.activity_seq
  Issued (child_workflow_started seq _) rt = seq ≤ rt.child_workflow_seq
  Issued (child_workflow_start_failed job) rt = job.seq ≤ rt.child_workflow_seq
  Issued (child_workflow_resolved job) rt = job.seq ≤ rt.child_workflow_seq
  Issued (signal_external_resolved job) rt = job.seq ≤ rt.signal_external_seq
  Issued _ rt = Unit {0}

module _ {h : Host} (call : Caller h) where
  -- The same of every job at the state in which it is applied.
  unfoldable pub AllIssued : ℕ → List (WorkflowJob h.Object) → WorkflowRuntime h → Type 0
  AllIssued now [] rt = Unit {0}
  AllIssued now (job ∷ jobs) rt = Issued job rt × AllIssued now jobs (apply_job call now job rt).1
