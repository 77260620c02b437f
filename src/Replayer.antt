-- ===== src/Replayer.antt =====
-- temporalio_trio/worker/_replayer.py: histories are pushed one after the other, and the eviction that
-- ends a replay says whether it failed.
pub mod Verdicts
use python_trio_sdk.Common.{
  ℕ, Bool, true, false, not, ◌&&◌, String, or_else, Option, none, some, List, [], ◌∷◌,
  if◌then◌else◌, nat_eq, string_eq,
}
use python_trio_sdk.Common.Dict.{Dict, put}
use python_trio_sdk.Host.{Exception, Result, ok, err}

-- The values of the protobuf enum that the code names.
pub record EvictionReasons : Type 0 where
  pub nondeterminism : ℕ
  pub cache_full : ℕ
  pub lang_requested : ℕ

pub data ReplayFailure : Type 0 where
  nondeterminism_error : (message : String) → ReplayFailure
  eviction_error : (reason : Option ℕ) (message : Option String) → ReplayFailure

pub record Eviction : Type 0 where
  pub reason : Option ℕ
  pub message : Option String

-- The closure variables of the hook; the event is whether it is set.
pub record Replay : Type 0 where
  pub last_replay_failure : Option ReplayFailure
  pub last_replay_complete : Bool

-- What happens to a history: what the push raises, the evictions up to the moment at which the
-- iterator goes on, and whether the worker has failed by then.
pub record PushedHistory (Object : Type 0) : Type 0 where
  pub run_id : String
  pub pushed : Result Object (Unit {0})
  pub evictions : List Eviction
  pub worker_error : Option (Exception Object)

-- What a call of the iterator gives; it waits forever without an eviction or a failure.
pub data Replayed (Object : Type 0) (A : Type 0) : Type 0 where
  yielded : A → Replayed Object A
  raised_failure : ReplayFailure → Replayed Object A
  raised : Exception Object → Replayed Object A
  waiting : Replayed Object A

unfoldable pub is_reason : Option ℕ → ℕ → Bool
is_reason none value = false
is_reason (some reason) value = nat_eq reason value

unfoldable pub failure_of : EvictionReasons → Eviction → Option ReplayFailure
failure_of reasons e =
    if is_reason e.reason reasons.nondeterminism
    then some (nondeterminism_error (or_else e.message ""))
    else (if not (is_reason e.reason reasons.cache_full)
          && not (is_reason e.reason reasons.lang_requested)
        then some (eviction_error e.reason e.message)
        else none)

unfoldable pub on_eviction_hook : EvictionReasons → Eviction → Replay → Replay
on_eviction_hook reasons e r = record {
  last_replay_failure = failure_of reasons e;
  last_replay_complete = true;
}

unfoldable pub on_evictions : EvictionReasons → List Eviction → Replay → Replay
on_evictions reasons [] r = r
on_evictions reasons (e ∷ es) r = on_evictions reasons es (on_eviction_hook reasons e r)

module _ {Object : Type 0} (reasons : EvictionReasons) where
  -- Behind the wait.
  unfoldable pub raced : Option (Exception Object) → Replay → Replayed Object (Option ReplayFailure)
  raced (some e) r = raised e
  raced none r = if r.last_replay_complete then yielded r.last_replay_failure else waiting

  -- One step of `replay_iterator`
  unfoldable pub replay_next : PushedHistory Object → Replayed Object (Option ReplayFailure)
  replay_next round = elim round.pushed [
    | err e ↦ raised e
    | ok _ ↦ raced round.worker_error (
        on_evictions reasons round.evictions
          (record { last_replay_failure = none; last_replay_complete = false }))
  ]

  -- A step of the loop of `replay_workflows`
  unfoldable pub collect_result :
      (raise_on_replay_failure : Bool) (run_id : String)
      → Replayed Object (Option ReplayFailure)
      → Dict String ReplayFailure
      → Replayed Object (Dict String ReplayFailure)
  collect_result raise_on run_id (yielded none) failures = yielded failures
  collect_result raise_on run_id (yielded (some f)) failures =
      if raise_on then raised_failure f else yielded (put failures run_id f)
  collect_result raise_on run_id (raised_failure f) failures = raised_failure f
  collect_result raise_on run_id (raised e) failures = raised e
  collect_result raise_on run_id waiting failures = waiting

  unfoldable pub replay_histories :
      (raise_on_replay_failure : Bool)
      → List (PushedHistory Object)
      → Dict String ReplayFailure
      → Replayed Object (Dict String ReplayFailure)
  replay_histories raise_on [] failures = yielded failures
  replay_histories raise_on (r ∷ rs) failures =
      elim (collect_result raise_on r.run_id (replay_next r) failures) [
        | yielded failures' ↦ replay_histories raise_on rs failures'
        | raised_failure f ↦ raised_failure f
        | raised e ↦ raised e
        | waiting ↦ waiting
      ]

  unfoldable pub replay_workflows :
      (raise_on_replay_failure : Bool)
      → List (PushedHistory Object)
      → Replayed Object (Dict String ReplayFailure)
  replay_workflows raise_on rounds = replay_histories raise_on rounds []
