-- ===== src/Bridge/Commands.antt =====
-- temporalio_trio/worker/_bridge_types.py: `poc_to_bridge_completion`.
use python_trio_sdk.Common.{String, Option, none, some, List, [], ◌∷◌, ◌++◌}
use python_trio_sdk.Host.{Result, ok}
use python_trio_sdk.Activation
use python_trio_sdk.Activation.{Command}
use python_trio_sdk.Bridge.Converters.{Converters, ◌>>=◌}
use Fields.{text_field, summary_only, static_metadata, encode_typed_items}
use Convert.{
  start_timer_message, timer_metadata, schedule_activity_message, schedule_local_activity_message,
  start_child_message, signal_external_message, continue_as_new_message, query_success_answer,
  query_answer, response_message,
}
use Messages.{Variant, UserMetadata, WorkflowCommand, BridgeCompletion}
mod Messages
mod Fields
mod Convert
unfoldable pub use Messages.*
unfoldable pub use Fields.*
unfoldable pub use Convert.*

module _ {Object : Type 0} where
  -- a command without metadata
  unfoldable pub plain : Variant Object → WorkflowCommand Object
  plain variant = record { variant = variant; user_metadata = none }

  unfoldable pub with_metadata :
      Variant Object → Option (UserMetadata Object) → WorkflowCommand Object
  with_metadata variant metadata = record { variant = variant; user_metadata = metadata }

module _ {Object : Type 0} (c : Converters Object) (none_object : Object) where
  -- The body of the loop over the commands.
  unfoldable pub convert_command : Command Object → Result Object (WorkflowCommand Object)
  unfolding plain with_metadata text_field summary_only static_metadata encode_typed_items
      start_timer_message timer_metadata schedule_activity_message schedule_local_activity_message
      start_child_message signal_external_message continue_as_new_message query_success_answer
      query_answer response_message
  convert_command (Activation.start_timer cmd) = do
    metadata ← timer_metadata c cmd.summary
    ok (with_metadata (Messages.start_timer (start_timer_message c cmd)) metadata)
  convert_command (Activation.cancel_timer timer_id) = ok (plain (Messages.cancel_timer timer_id))
  convert_command (Activation.schedule_activity cmd) = do
    message ← schedule_activity_message c cmd
    ok (with_metadata (Messages.schedule_activity message) (summary_only cmd.summary_payload))
  convert_command (Activation.schedule_local_activity cmd) = do
    message ← schedule_local_activity_message c cmd
    ok (with_metadata (Messages.schedule_local_activity message) (summary_only cmd.summary_payload))
  convert_command (Activation.request_cancel_activity seq) =
      ok (plain (Messages.request_cancel_activity seq))
  convert_command (Activation.request_cancel_local_activity seq) =
      ok (plain (Messages.request_cancel_local_activity seq))
  convert_command (Activation.start_child_workflow cmd) = do
    message ← start_child_message c cmd
    ok (
        with_metadata (Messages.start_child_workflow_execution message)
          (static_metadata cmd.static_summary_payload cmd.static_details_payload))
  convert_command (Activation.cancel_child_workflow seq) =
      ok (plain (Messages.cancel_child_workflow_execution seq))
  convert_command (Activation.signal_external_workflow cmd) = do
    message ← signal_external_message c cmd
    ok (plain (Messages.signal_external_workflow_execution message))
  convert_command (Activation.request_cancel_external_workflow cmd) = ok (
      plain (
        Messages.request_cancel_external_workflow_execution cmd.seq cmd.workflow_id
          (text_field cmd.run_id)))
  convert_command (Activation.set_patch_marker patch_id deprecated) =
      ok (plain (Messages.set_patch_marker patch_id deprecated))
  convert_command (Activation.upsert_search_attributes updates) = do
    encoded ← encode_typed_items c updates
    ok (plain (Messages.upsert_workflow_search_attributes encoded))
  convert_command (Activation.update_response cmd) = do
    response ← response_message c none_object cmd
    ok (plain (Messages.update_response cmd.protocol_instance_id response))
  convert_command (Activation.query_result cmd) = do
    answer ← query_answer c cmd
    ok (plain (Messages.respond_to_query cmd.query_id answer))
  convert_command (Activation.query_success query_id result) = do
    answer ← query_success_answer c result
    ok (plain (Messages.respond_to_query query_id answer))
  convert_command (Activation.query_failure query_id error) =
      ok (plain (Messages.respond_to_query query_id (Messages.failed (c.message error))))
  convert_command (Activation.complete_workflow result) = do
    payload ← c.to_payload result
    ok (plain (Messages.complete_workflow_execution payload))
  convert_command (Activation.fail_workflow exception) = do
    failure ← c.to_failure exception
    ok (plain (Messages.fail_workflow_execution failure))
  convert_command Activation.cancel_workflow_execution =
      ok (plain Messages.cancel_workflow_execution)
  convert_command (Activation.continue_as_new cmd) = do
    message ← continue_as_new_message c cmd
    ok (plain (Messages.continue_as_new_workflow_execution message))

  -- The loop, with the commands that it has appended so far.
  unfoldable pub convert_commands :
      List (Command Object)
      → List (WorkflowCommand Object)
      → Result Object (List (WorkflowCommand Object))
  unfolding convert_command
  convert_commands [] done = ok done
  convert_commands (cmd ∷ cmds) done = do
    bridge_cmd ← convert_command cmd
    convert_commands cmds (done ++ bridge_cmd ∷ [])

  unfoldable pub poc_to_bridge_completion :
      (run_id : String) → List (Command Object) → Result Object (BridgeCompletion Object)
  unfolding convert_commands
  poc_to_bridge_completion run_id commands = do
    cmds ← convert_commands commands []
    ok record { run_id = run_id; commands = cmds }
