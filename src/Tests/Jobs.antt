-- ===== src/Tests/Jobs.antt =====
-- The theorems on the jobs of an activation, and on the clock.
use python_trio_sdk.Common.{
  none, ◌≡◌, ◌≤◌, refl, true, false, some, List, [], ◌∷◌, ℕ, zero, suc, name_eq, arith,
}
use python_trio_sdk.Common.Dict.{get}
use python_trio_sdk.Host.{ok}
use python_trio_sdk.Activation.{UpdateResponseCommand, query_success}
use python_trio_sdk.Runtime.State.{WorkflowRuntime}
use python_trio_sdk.Runtime.New.{new_runtime}
use python_trio_sdk.Runtime.Conditions.{notify_condition_waiters}
use python_trio_sdk.Worker.Queries.{apply_query_async}
use python_trio_sdk.Worker.Completed.{query_completed, completed_answer}
use python_trio_sdk.Worker.QueryAnswers.{query_restores_read_only, query_answered_once}
use python_trio_sdk.Worker.Updates.{
  apply_update_async, lookup, validate, handle_update_validator, validated, accept_update,
  after_handler, finish_update, start_soon,
}
use python_trio_sdk.Worker.UpdateProtocol.{update_follows-Protocol, Protocol, Responded, IsQuiet}
use python_trio_sdk.Runtime.Timers.{workflow_sleep}
use python_trio_sdk.Runtime.Moves.{Reach}
use python_trio_sdk.Clock.{advance_all, deadline_to_sleep_time, passed_deadlines_stay_passed}
use python_trio_sdk.Tests.World.{world, call, fresh, handling, query, update}

query_restores_read_only_example :
    (apply_query_async call query (handling fresh)).1.read_only ≡ false
unfolding new_runtime
query_restores_read_only_example = query_restores_read_only call query (handling fresh)

call-read_only :
    (f : ℕ)
    → (call f [] (record (handling fresh) { read_only = true })).0 ≡ (call f [] (handling fresh)).0
call-read_only zero = refl
call-read_only (suc zero) = refl
call-read_only (suc (suc f)) = refl

call-commands :
    (f : ℕ)
    → (call f [] (record (handling fresh) { read_only = true })).1.commands
      ≡ (handling fresh).commands
call-commands zero = refl
call-commands (suc zero) = refl
call-commands (suc (suc f)) = refl

query_answered_once_example :
    ((apply_query_async call query (handling fresh)).0 ≡ ok tt)
    × ((apply_query_async call query (handling fresh)).1.commands ≡ query_success "1" 9 ∷ [])
unfolding new_runtime query_completed completed_answer get
query_answered_once_example =
    query_answered_once call query (handling fresh) (query_success "1" 9) call-read_only
      call-commands refl

call-IsQuiet : IsQuiet call
call-IsQuiet id zero args rt = refl
call-IsQuiet id (suc zero) args rt = refl
call-IsQuiet id (suc (suc f)) args rt = refl

update_follows-Protocol_example :
    (rs : List (UpdateResponseCommand ℕ)) × Protocol update
      (apply_update_async call update (handling fresh)).1
      rs
    × Responded update (handling fresh) (apply_update_async call update (handling fresh)).1 rs
unfolding new_runtime get apply_update_async lookup validate handle_update_validator validated
    accept_update after_handler finish_update start_soon notify_condition_waiters
update_follows-Protocol_example =
    update_follows-Protocol call update (handling fresh) call-IsQuiet refl

passed_deadlines_stay_passed_example :
    (5 ≤ (advance_all world (9 ∷ 2 ∷ []) (record { current_time_ns = 5 })).current_time_ns)
    × (deadline_to_sleep_time world
          (some 4)
          (advance_all world (9 ∷ 2 ∷ []) (record { current_time_ns = 5 }))
        ≡ ok (some 0))
passed_deadlines_stay_passed_example =
    passed_deadlines_stay_passed world (9 ∷ 2 ∷ []) 4 (record { current_time_ns = 5 }) (omega arith)

abbrev sleeping : WorkflowRuntime world
sleeping = (workflow_sleep 5 none fresh).1
