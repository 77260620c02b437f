-- ===== src/Tests/Lifecycle.antt =====
-- The theorems on the bridge wrapper.
use python_trio_sdk.Common.{ℕ, ◌≡◌, refl, true, Option, none, some, List, [], ◌∷◌, String, arith}
use python_trio_sdk.Host.{ok}
use python_trio_sdk.AsyncBridge.State.{
  Bytes, Request, TrioBridgeWrapper, RequestResult, Answer, replied, silent, refused, returned,
  new_wrapper, start,
}
use python_trio_sdk.AsyncBridge.State
use python_trio_sdk.AsyncBridge.Prefix.{Utf8, prefixed, parse_worker_id_prefix, length}
use python_trio_sdk.AsyncBridge.Json.{Dumps}
use python_trio_sdk.AsyncBridge.Routing.{addressee, worker_id_round_trip}
use python_trio_sdk.AsyncBridge.Shutdown.{shutdown}
use python_trio_sdk.AsyncBridge.Shutdowns.{open_wrapper, shutdown_requests, shutdown_happens_once}
use python_trio_sdk.AsyncBridge.Calls.{Call, calls, operation}
use python_trio_sdk.AsyncBridge.Calls
use python_trio_sdk.AsyncBridge.Draining.{Drained, only_drains_after_shutdown}
use python_trio_sdk.AsyncBridge.Phases.{Advance, IsOrderly, phase, agree, calls_refine_phases}

-- A single worker id, "w".
abbrev utf8 : Utf8
utf8 = record { encode = λ _. 119 ∷ []; from_utf8 = λ _. some "w" }

abbrev dumps : Dumps ℕ
dumps = λ _. 123 ∷ 125 ∷ []

abbrev success : RequestResult
success = record { request_id = "1"; success = true; get_data = some (7 ∷ []); error = none }

worker_id_round_trip_example :
    (sent : Bytes) × (prefixed utf8 {Object = ℕ} (some "w") (10 ∷ 1 ∷ []) ≡ ok sent)
    × (parse_worker_id_prefix utf8 sent ≡ addressee utf8 (some "w") (10 ∷ 1 ∷ []))
unfolding length
worker_id_round_trip_example =
    worker_id_round_trip utf8 (some "w") (1 ∷ []) (λ _ _. omega arith) only (omega arith)
  where
    only : (w : String) → ◌≡◌ {A = Option String} (some "w") (some w) → some "w" ≡ some w
    only w p = p

shutdown_happens_once_example :
    let w =
      (shutdown {Object = ℕ} utf8
        (λ _. true)
        none
        (replied success)
        (replied success)
        (open_wrapper true State.running [])).1 in
    (w.closed ≡ true)
    × (w.requests ≡ shutdown_requests State.running [])
    × (shutdown {Object = ℕ} utf8 (λ _. true) (some 5) silent silent w ≡ (returned tt, w))
shutdown_happens_once_example =
    shutdown_happens_once ℕ utf8 (λ _. true) true State.running [] success success none (some 5)
      silent silent

-- A poll, a completion and a shutdown.
abbrev late : List (Call ℕ × Answer × Answer)
late =
    (operation (Calls.poll_workflow_activation none none), replied success, silent)
    ∷ (operation (Calls.complete_workflow_activation (10 ∷ []) none none), replied success, silent)
    ∷ (Calls.shutdown (some 1), silent, replied success)
    ∷ []

only_drains_after_shutdown_example :
    Drained
      (open_wrapper true State.shutdown [])
      (calls utf8 dumps (λ _. true) late (open_wrapper true State.shutdown []))
only_drains_after_shutdown_example =
    only_drains_after_shutdown utf8 dumps (λ _. true) late (open_wrapper true State.shutdown [])
      refl

calls_refine_phases_example :
    Advance
      (phase new_wrapper)
      (phase (calls utf8 dumps (λ _. true) ((Calls.start, silent, silent) ∷ late) new_wrapper))
    × IsOrderly (calls utf8 dumps (λ _. true) ((Calls.start, silent, silent) ∷ late) new_wrapper)
unfolding agree new_wrapper
calls_refine_phases_example =
    calls_refine_phases utf8 dumps (λ _. true) ((Calls.start, silent, silent) ∷ late) new_wrapper
      refl
