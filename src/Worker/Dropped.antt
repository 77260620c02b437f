-- ===== src/Worker/Dropped.antt =====
-- temporalio_trio/worker/_single_thread_worker.py with temporalio_trio/worker/_bridge_types.py: an
-- activation that cannot be converted, and the namespace of a run.
use python_trio_sdk.Common.{◌≡◌, refl, ap, sym, ◌∙◌, true, false, String, ℕ, List, ◌∷◌, Option}
use python_trio_sdk.Host.{Host, Exception, is_exception, Result, ok, err}
use python_trio_sdk.Activation.{WorkflowStartedJob, StartChildWorkflowCommand, start_child_workflow}
use python_trio_sdk.Bridge.Converters.{Converters, Always, ◌>>=◌, each}
use python_trio_sdk.Bridge.Messages.{BridgeActivation, InitializeWorkflow}
use python_trio_sdk.Bridge.Activations.{
  bridge_to_poc_activation, convert_initialize_workflow, started,
}
use python_trio_sdk.Bridge.Commands.{
  convert_command, start_child_message, static_metadata, with_metadata, StartChild, UserMetadata,
  WorkflowCommand, start_child_workflow_execution,
}
use python_trio_sdk.Bridge.CommandOrder.{start_child_message-Always}
use python_trio_sdk.Runtime.State.{WorkflowRuntime}
use python_trio_sdk.Runtime.Children.Requests.{StartChildWorkflowInput}
use python_trio_sdk.Runtime.Children.Start.{EncodedChild, start_command}
use python_trio_sdk.Worker.Code.{Code, Settings}
use python_trio_sdk.Worker.Task.{identity_of}
use python_trio_sdk.Worker.Poll.{
  Surroundings, Round, Poller, poll_loop, serve, serve_parsed, after_round, parse_activation,
}

module _ {h : Host} (code : Code h) (settings : Settings) (s : Surroundings h) where
  refused-parse :
      (act : BridgeActivation h.Object) (e : Exception h.Object)
      → bridge_to_poc_activation s.converters s.no_backoff act ≡ err e
      → parse_activation s.converters s.no_backoff act ≡ err e
  unfolding parse_activation
  refused-parse act e p = rw p refl

  refused-serve :
      (fallback : String) (act : BridgeActivation h.Object) (e : Exception h.Object) (p : Poller h)
      → bridge_to_poc_activation s.converters s.no_backoff act ≡ err e
      → serve code settings s fallback (ok act) p ≡ (err e, p)
  unfolding serve serve_parsed
  refused-serve fallback act e p q =
      ap (serve_parsed code settings s fallback p) (refused-parse act e q)

  -- An activation that cannot be converted, as it has a job of an unknown type or a payload that the
  -- converter refuses, is dropped: no completion is sent for it, and the loop goes on as if it had
  -- not been polled.
  pub unconvertible_activation_is_dropped :
      (fallback : String) (act : BridgeActivation h.Object) (e : Exception h.Object)
      (rounds : List (Round h.Object)) (p : Poller h)
      → bridge_to_poc_activation s.converters s.no_backoff act ≡ err e
      → is_exception e ≡ true
      → s.is_poll_shutdown e ≡ false
      → poll_loop code settings s
          (record { shutdown_set = false; polled = ok act; fallback = fallback } ∷ rounds)
          p
        ≡ poll_loop code settings s rounds p
  unfolding poll_loop after_round
  unconvertible_activation_is_dropped fallback act e rounds p refused caught goes_on =
      ap (λ r. after_round s r (λ q. poll_loop code settings s rounds q))
        (refused-serve fallback act e p refused)
      ∙ rw (caught, goes_on) refl

namespace_of : {Object : Type 0} → Result Object (WorkflowStartedJob Object) → String
namespace_of (ok job) = job.namespace
namespace_of (err _) = "default"

converted-default :
    {Object : Type 0} (c : Converters Object) (init : InitializeWorkflow Object)
    (job : WorkflowStartedJob Object)
    → convert_initialize_workflow c init ≡ ok job
    → job.namespace ≡ "default"
unfolding convert_initialize_workflow started namespace_of
converted-default {Object = Object} c init job p = go (each c.from_payload init.arguments) p
  where
    go :
        (r : Result Object (List Object))
        → (r >>= λ args. ok (started c init args)) ≡ ok job
        → job.namespace ≡ "default"
    go (ok args) q = sym (ap namespace_of q)
    go (err e) q = sym (ap namespace_of q)

start_child-message :
    {Object : Type 0} (seq : ℕ) (namespace : String) (r : Result Object (StartChild Object))
    (metadata : Option (UserMetadata Object)) (sent : WorkflowCommand Object)
    → Always (λ m. (m.seq ≡ seq) × (m.namespace ≡ namespace)) r
    → (r >>= λ m. ok (with_metadata (start_child_workflow_execution m) metadata)) ≡ ok sent
    → (message : StartChild Object) × (with_metadata
          (start_child_workflow_execution message)
          metadata
        ≡ sent)
      × (message.namespace ≡ namespace)
unfolding Always
start_child-message seq namespace (ok m) metadata sent (_, same) p = (m, cc, same)
start_child-message seq namespace (err e) metadata sent _ p = absurd cc

child_message :
    {Object : Type 0} (c : Converters Object) (none_object : Object)
    (cmd : StartChildWorkflowCommand Object) (sent : WorkflowCommand Object)
    → convert_command c none_object (start_child_workflow cmd) ≡ ok sent
    → (message : StartChild Object) × (metadata : Option (UserMetadata Object)) × (with_metadata
          (start_child_workflow_execution message)
          metadata
        ≡ sent)
      × (message.namespace ≡ cmd.namespace)
unfolding convert_command
child_message c none_object cmd sent converted =
    let (message, same, named) =
      start_child-message cmd.seq cmd.namespace (start_child_message c cmd)
        (static_metadata cmd.static_summary_payload cmd.static_details_payload) sent
        (start_child_message-Always c none_object cmd) converted in
    (message, _, same, named)

module _ {h : Host} (c : Converters h.Object) where
  -- Whatever the namespace of the worker, the child workflows of a run are requested in the namespace
  -- "default": for every run whose runtime was created from a converted InitializeWorkflow job, a
  -- child start that can be converted becomes a message with the namespace "default".
  pub children_start_in_default :
      (init : InitializeWorkflow h.Object) (job : WorkflowStartedJob h.Object) (settings : Settings)
      (run_id : String) (rt : WorkflowRuntime h) (seq : ℕ)
      (input : StartChildWorkflowInput h.Object) (encoded : EncodedChild h.Object)
      (sent : WorkflowCommand h.Object)
      → convert_initialize_workflow c init ≡ ok job
      → rt.identity ≡ identity_of settings run_id job
      → convert_command c h.none_object (start_command seq input encoded rt) ≡ ok sent
      → (message : StartChild h.Object) × (metadata : Option (UserMetadata h.Object))
        × (with_metadata (start_child_workflow_execution message) metadata ≡ sent)
        × (message.namespace ≡ "default")
  unfolding identity_of
  children_start_in_default init job settings run_id rt seq input encoded sent p q converted =
      let (message, metadata, same, named) = child_message c h.none_object _ sent converted in
      (message, metadata, same, named ∙ ap (λ i. i.namespace) q ∙ converted-default c init job p)
