-- ===== src/Bridge/CommandOrder.antt =====
-- temporalio_trio/worker/_bridge_types.py: the commands of a completion against a description of
-- what each of them asks for.
use python_trio_sdk.Common.{ℕ, ◌≡◌, refl, ap, ◌∙◌, String, List, [], ◌∷◌, ◌++◌, map, ◌⊎◌, inl, inr}
use python_trio_sdk.Host.{Exception, Result, ok, err}
use python_trio_sdk.Activation
use python_trio_sdk.Activation.{Command}
use python_trio_sdk.Bridge.Converters.{Converters, Always, >>=-Always, ◌>>=◌}
use python_trio_sdk.Bridge.Commands
use python_trio_sdk.Bridge.Commands.{
  Variant, WorkflowCommand, BridgeCompletion, convert_command, convert_commands,
  poc_to_bridge_completion, plain, with_metadata, start_timer_message, schedule_activity_message,
  schedule_local_activity_message, start_child_message, signal_external_message, extended, given,
  encode_given_attributes,
}
use mathlib.Core.List.{append_assoc, append-nil}

-- What a command asks for: the field of the protobuf message, with the number or the name that the
-- answer to it comes back under.
pub data Purpose : Type 0 where
  numbered : (field : String) (seq : ℕ) → Purpose
  named : (field id : String) → Purpose
  unnamed : (field : String) → Purpose

module _ {Object : Type 0} where
  unfoldable pub command_purpose : Command Object → Purpose
  command_purpose (Activation.start_timer cmd) = numbered "start_timer" cmd.timer_id
  command_purpose (Activation.cancel_timer timer_id) = numbered "cancel_timer" timer_id
  command_purpose (Activation.schedule_activity cmd) = numbered "schedule_activity" cmd.seq
  command_purpose (Activation.schedule_local_activity cmd) =
      numbered "schedule_local_activity" cmd.seq
  command_purpose (Activation.request_cancel_activity seq) = numbered "request_cancel_activity" seq
  command_purpose (Activation.request_cancel_local_activity seq) =
      numbered "request_cancel_local_activity" seq
  command_purpose (Activation.start_child_workflow cmd) =
      numbered "start_child_workflow_execution" cmd.seq
  command_purpose (Activation.cancel_child_workflow seq) =
      numbered "cancel_child_workflow_execution" seq
  command_purpose (Activation.signal_external_workflow cmd) =
      numbered "signal_external_workflow_execution" cmd.seq
  command_purpose (Activation.request_cancel_external_workflow cmd) =
      numbered "request_cancel_external_workflow_execution" cmd.seq
  command_purpose (Activation.set_patch_marker patch_id deprecated) =
      named "set_patch_marker" patch_id
  command_purpose (Activation.upsert_search_attributes updates) =
      unnamed "upsert_workflow_search_attributes"
  command_purpose (Activation.update_response cmd) =
      named "update_response" cmd.protocol_instance_id
  command_purpose (Activation.query_result cmd) = named "respond_to_query" cmd.query_id
  command_purpose (Activation.query_success query_id result) = named "respond_to_query" query_id
  command_purpose (Activation.query_failure query_id error) = named "respond_to_query" query_id
  command_purpose (Activation.complete_workflow result) = unnamed "complete_workflow_execution"
  command_purpose (Activation.fail_workflow exception) = unnamed "fail_workflow_execution"
  command_purpose Activation.cancel_workflow_execution = unnamed "cancel_workflow_execution"
  command_purpose (Activation.continue_as_new cmd) = unnamed "continue_as_new_workflow_execution"

  unfoldable pub variant_purpose : Variant Object → Purpose
  variant_purpose (Commands.start_timer m) = numbered "start_timer" m.seq
  variant_purpose (Commands.cancel_timer seq) = numbered "cancel_timer" seq
  variant_purpose (Commands.schedule_activity m) = numbered "schedule_activity" m.seq
  variant_purpose (Commands.schedule_local_activity m) = numbered "schedule_local_activity" m.seq
  variant_purpose (Commands.request_cancel_activity seq) = numbered "request_cancel_activity" seq
  variant_purpose (Commands.request_cancel_local_activity seq) =
      numbered "request_cancel_local_activity" seq
  variant_purpose (Commands.start_child_workflow_execution m) =
      numbered "start_child_workflow_execution" m.seq
  variant_purpose (Commands.cancel_child_workflow_execution seq) =
      numbered "cancel_child_workflow_execution" seq
  variant_purpose (Commands.signal_external_workflow_execution m) =
      numbered "signal_external_workflow_execution" m.seq
  variant_purpose (Commands.request_cancel_external_workflow_execution seq _ _) =
      numbered "request_cancel_external_workflow_execution" seq
  variant_purpose (Commands.set_patch_marker patch_id _) = named "set_patch_marker" patch_id
  variant_purpose (Commands.upsert_workflow_search_attributes _) =
      unnamed "upsert_workflow_search_attributes"
  variant_purpose (Commands.update_response id _) = named "update_response" id
  variant_purpose (Commands.respond_to_query query_id _) = named "respond_to_query" query_id
  variant_purpose (Commands.complete_workflow_execution _) = unnamed "complete_workflow_execution"
  variant_purpose (Commands.fail_workflow_execution _) = unnamed "fail_workflow_execution"
  variant_purpose Commands.cancel_workflow_execution = unnamed "cancel_workflow_execution"
  variant_purpose (Commands.continue_as_new_workflow_execution _) =
      unnamed "continue_as_new_workflow_execution"

  abbrev pub message_purpose : WorkflowCommand Object → Purpose
  message_purpose m = variant_purpose m.variant

  -- What one command becomes.
  unfoldable Becomes : Purpose → Result Object (WorkflowCommand Object) → Type 0
  Becomes purpose r =
      ((m : WorkflowCommand Object) × (r ≡ ok m) × (message_purpose m ≡ purpose))
      ⊎ ((e : Exception Object) × (r ≡ err e))

  bound-Becomes :
      {A : Type 0} (purpose : Purpose) (r : Result Object A) (f : A → WorkflowCommand Object)
      → ((a : A) → message_purpose (f a) ≡ purpose)
      → Becomes purpose (r >>= λ a. ok (f a))
  unfolding Becomes
  bound-Becomes purpose (ok a) f same = inl (f a, refl, same a)
  bound-Becomes purpose (err e) f same = inr (e, refl)

  message-Becomes :
      {A : Type 0} (P : A → Type 0) (purpose : Purpose) (r : Result Object A)
      (f : A → WorkflowCommand Object)
      → Always P r
      → ((a : A) → P a → message_purpose (f a) ≡ purpose)
      → Becomes purpose (r >>= λ a. ok (f a))
  unfolding Becomes Always
  message-Becomes P purpose (ok a) f p same = inl (f a, refl, same a p)
  message-Becomes P purpose (err e) f p same = inr (e, refl)

module _ {Object : Type 0} (c : Converters Object) (none_object : Object) where
  schedule_activity_message-Always :
      (cmd : Activation.ScheduleActivityCommand Object)
      → Always (λ m. m.seq ≡ cmd.seq) (schedule_activity_message c cmd)
  unfolding schedule_activity_message Always
  schedule_activity_message-Always cmd =
      >>=-Always (λ m. m.seq ≡ cmd.seq) (extended c cmd.args) _
        λ _.
          >>=-Always (λ m. m.seq ≡ cmd.seq) (given c.policy_to_proto cmd.retry_policy) _ λ _. refl

  schedule_local_activity_message-Always :
      (cmd : Activation.ScheduleLocalActivityCommand Object)
      → Always (λ m. m.seq ≡ cmd.seq) (schedule_local_activity_message c cmd)
  unfolding schedule_local_activity_message Always
  schedule_local_activity_message-Always cmd =
      >>=-Always (λ m. m.seq ≡ cmd.seq) (extended c cmd.args) _
        λ _.
          >>=-Always (λ m. m.seq ≡ cmd.seq) (given c.policy_to_proto cmd.retry_policy) _ λ _. refl

  pub start_child_message-Always :
      (cmd : Activation.StartChildWorkflowCommand Object)
      → Always (λ m. (m.seq ≡ cmd.seq) × (m.namespace ≡ cmd.namespace)) (start_child_message c cmd)
  unfolding start_child_message Always
  start_child_message-Always cmd =
      >>=-Always (λ m. (m.seq ≡ cmd.seq) × (m.namespace ≡ cmd.namespace)) (extended c cmd.args) _
        λ _.
          >>=-Always (λ m. (m.seq ≡ cmd.seq) × (m.namespace ≡ cmd.namespace))
            (given c.policy_to_proto cmd.retry_policy) _
            λ _.
              >>=-Always (λ m. (m.seq ≡ cmd.seq) × (m.namespace ≡ cmd.namespace))
                (encode_given_attributes c cmd.search_attributes) _ λ _. (refl, refl)

  signal_external_message-Always :
      (cmd : Activation.SignalExternalWorkflowCommand Object)
      → Always (λ m. m.seq ≡ cmd.seq) (signal_external_message c cmd)
  unfolding signal_external_message Always
  signal_external_message-Always cmd =
      >>=-Always (λ m. m.seq ≡ cmd.seq) (extended c cmd.args) _ λ _. refl

  convert_command-Becomes :
      (cmd : Command Object) → Becomes (command_purpose cmd) (convert_command c none_object cmd)
  unfolding Becomes convert_command command_purpose variant_purpose plain with_metadata
      start_timer_message
  convert_command-Becomes (Activation.start_timer cmd) = bound-Becomes _ _ _ λ _. refl
  convert_command-Becomes (Activation.schedule_activity cmd) =
      message-Becomes (λ m. m.seq ≡ cmd.seq) _ (schedule_activity_message c cmd) _
        (schedule_activity_message-Always cmd) (λ m p. ap (numbered "schedule_activity") p)
  convert_command-Becomes (Activation.schedule_local_activity cmd) =
      message-Becomes (λ m. m.seq ≡ cmd.seq) _ (schedule_local_activity_message c cmd) _
        (schedule_local_activity_message-Always cmd)
        (λ m p. ap (numbered "schedule_local_activity") p)
  convert_command-Becomes (Activation.start_child_workflow cmd) =
      message-Becomes (λ m. (m.seq ≡ cmd.seq) × (m.namespace ≡ cmd.namespace)) _
        (start_child_message c cmd) _ (start_child_message-Always cmd)
        (λ m (p, _). ap (numbered "start_child_workflow_execution") p)
  convert_command-Becomes (Activation.signal_external_workflow cmd) =
      message-Becomes (λ m. m.seq ≡ cmd.seq) _ (signal_external_message c cmd) _
        (signal_external_message-Always cmd)
        (λ m p. ap (numbered "signal_external_workflow_execution") p)
  convert_command-Becomes (Activation.upsert_search_attributes _) = bound-Becomes _ _ _ λ _. refl
  convert_command-Becomes (Activation.update_response cmd) = bound-Becomes _ _ _ λ _. refl
  convert_command-Becomes (Activation.query_result cmd) = bound-Becomes _ _ _ λ _. refl
  convert_command-Becomes (Activation.query_success _ _) = bound-Becomes _ _ _ λ _. refl
  convert_command-Becomes (Activation.complete_workflow _) = bound-Becomes _ _ _ λ _. refl
  convert_command-Becomes (Activation.fail_workflow _) = bound-Becomes _ _ _ λ _. refl
  convert_command-Becomes (Activation.continue_as_new cmd) = bound-Becomes _ _ _ λ _. refl
  convert_command-Becomes _ = inl (_, refl, refl)

  -- A command cannot be converted, and all before it can.
  pub data Unsendable : List (Command Object) → Exception Object → Type 0 where
    here :
        {cmd : Command Object} {cmds : List (Command Object)} {e : Exception Object}
        → convert_command c none_object cmd ≡ err e
        → Unsendable (cmd ∷ cmds) e
    later :
        {cmd : Command Object} {cmds : List (Command Object)} {e : Exception Object}
        (m : WorkflowCommand Object)
        → convert_command c none_object cmd ≡ ok m
        → Unsendable cmds e
        → Unsendable (cmd ∷ cmds) e

  unfoldable Sends : List (Command Object) → List (WorkflowCommand Object) → Type 0
  Sends cmds done =
      ((ms : List (WorkflowCommand Object)) × (convert_commands c none_object cmds done
          ≡ ok (done ++ ms))
        × (map message_purpose ms ≡ map command_purpose cmds))
      ⊎ ((e : Exception Object) × (convert_commands c none_object cmds done ≡ err e)
          × Unsendable cmds e)

  sends : (cmds : List (Command Object)) (done : List (WorkflowCommand Object)) → Sends cmds done
  unfolding Sends convert_commands Becomes
  sends [] done = inl ([], rw (append-nil done) refl, refl)
  sends (cmd ∷ cmds) done = elim (convert_command-Becomes cmd) [
    | inr (e, p) ↦ inr (e, rw p refl, here p)
    | inl (m, p, same) ↦ elim (sends cmds (done ++ m ∷ [])) [
      | inr (e, q, fails) ↦ inr (e, rw p q, later m p fails)
      | inl (ms, q, sames) ↦
          inl (m ∷ ms, rw p (q ∙ ap ok (append_assoc done (m ∷ []) ms)), rw (same, sames))
    ]
  ]

  -- A completion is sent whole or not at all. Either there is a first command that cannot be
  -- converted, and its exception is raised; or there is one message for each command, in their
  -- order, each in the protobuf field of its command and with its number, query id, patch id or
  -- protocol instance id, under the run id of the activation.
  pub completion_conversion_complete :
      (run_id : String) (cmds : List (Command Object))
      → ((comp : BridgeCompletion Object) × (poc_to_bridge_completion c none_object run_id cmds
            ≡ ok comp)
          × (comp.run_id ≡ run_id)
          × (map message_purpose comp.commands ≡ map command_purpose cmds))
        ⊎ ((e : Exception Object) × (poc_to_bridge_completion c none_object run_id cmds ≡ err e)
            × Unsendable cmds e)
  unfolding poc_to_bridge_completion Sends
  completion_conversion_complete run_id cmds = elim (sends cmds []) [
    | inl (ms, q, same) ↦ inl (record { run_id = run_id; commands = ms }, rw q refl, refl, same)
    | inr (e, q, fails) ↦ inr (e, rw q refl, fails)
  ]
