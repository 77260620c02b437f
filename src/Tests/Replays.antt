-- ===== src/Tests/Replays.antt =====
-- The theorem on the replayer: two runs, one with an eviction that is no failure, and one that is
-- replayed twice and fails both times.
use python_trio_sdk.Common.{
  true, false, ℕ, ◌≡◌, refl, String, string_eq, Option, none, some, List, [], ◌∷◌,
}
use python_trio_sdk.Common.Dict.{Dict, get}
use python_trio_sdk.Host.{ok}
use python_trio_sdk.Replayer.{
  EvictionReasons, ReplayFailure, nondeterminism_error, PushedHistory, yielded, raised_failure,
  replay_workflows, failure_of, is_reason,
}
use python_trio_sdk.Replayer.Verdicts.{
  replays, all_replay, verdict, first_failure, last_failure, failures_are_reported,
}

abbrev reasons : EvictionReasons
reasons = record { nondeterminism = 2; cache_full = 1; lang_requested = 6 }

abbrev replayed : String → Option ℕ → PushedHistory ℕ
replayed run_id reason = record {
  run_id = run_id;
  pushed = ok tt;
  evictions = record { reason = reason; message = some "m" } ∷ [];
  worker_error = none;
}

abbrev rounds : List (PushedHistory ℕ)
rounds = replayed "a" (some 6) ∷ replayed "b" (some 2) ∷ replayed "b" (some 4) ∷ []

failures_are_reported_example :
    (replay_workflows reasons true rounds ≡ raised_failure (nondeterminism_error "m"))
    × ((failures : Dict String ReplayFailure) × (replay_workflows reasons false rounds
          ≡ yielded failures)
        × ((run_id : String) → get failures run_id ≡ last_failure reasons run_id rounds none))
unfolding replays all_replay verdict first_failure failure_of is_reason
failures_are_reported_example = failures_are_reported reasons rounds refl
