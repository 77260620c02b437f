-- ===== src/Replayer/Verdicts.antt =====
-- temporalio_trio/worker/_replayer.py: what the replays of histories add up to.
use python_trio_sdk.Common.{
  ◌≡◌, refl, ap, ◌∙◌, Bool, true, false, ◌&&◌, String, Option, none, some, List, [], ◌∷◌, string_eq,
  ◌==◌, if◌then◌else◌, arith, Option-cases, inl, inr,
}
use python_trio_sdk.Common.Dict.{Dict, get, put, get-put}
use python_trio_sdk.Host.{Exception, Result, ok, err}
use python_trio_sdk.Replayer.{
  EvictionReasons, ReplayFailure, Eviction, Replay, PushedHistory, yielded, raised_failure,
  failure_of, on_eviction_hook, on_evictions, raced, replay_next, collect_result, replay_histories,
  replay_workflows,
}

-- The history was pushed, an eviction came, and the worker has not failed.
unfoldable pub replays : {Object : Type 0} → PushedHistory Object → Bool
replays round = elim round.pushed [
  | err _ ↦ false
  | ok _ ↦ elim round.worker_error [
    | some _ ↦ false
    | none ↦ elim round.evictions [ [] ↦ false | _ ∷ _ ↦ true ]
  ]
]

unfoldable pub all_replay : {Object : Type 0} → List (PushedHistory Object) → Bool
all_replay [] = true
all_replay (r ∷ rs) = replays r && all_replay rs

module _ (reasons : EvictionReasons) where
  -- The last eviction decides.
  unfoldable pub verdict : List Eviction → Option ReplayFailure
  verdict [] = none
  verdict (e ∷ []) = failure_of reasons e
  verdict (_ ∷ e ∷ es) = verdict (e ∷ es)

  unfoldable pub first_failure :
      {Object : Type 0} → List (PushedHistory Object) → Option ReplayFailure
  first_failure [] = none
  first_failure (r ∷ rs) = elim (verdict r.evictions) [ some f ↦ some f | none ↦ first_failure rs ]

  -- The last failure among the histories of a run, or else `known`.
  unfoldable pub last_failure :
      {Object : Type 0}
      → String
      → List (PushedHistory Object)
      → Option ReplayFailure
      → Option ReplayFailure
  last_failure run_id [] known = known
  last_failure run_id (r ∷ rs) known = elim (verdict r.evictions) [
    | none ↦ last_failure run_id rs known
    | some f ↦ last_failure run_id rs (if r.run_id == run_id then some f else known)
  ]

  on_evictions-verdict :
      (e : Eviction) (es : List Eviction) (r : Replay)
      → on_evictions reasons (e ∷ es) r
        ≡ record { last_replay_failure = verdict (e ∷ es); last_replay_complete = true }
  unfolding on_evictions on_eviction_hook verdict
  on_evictions-verdict e [] r = refl
  on_evictions-verdict e (e' ∷ es) r = on_evictions-verdict e' es (on_eviction_hook reasons e r)

  replay_next-verdict :
      {Object : Type 0} (run_id : String) (pushed : Result Object (Unit {0})) (es : List Eviction)
      (worker_error : Option (Exception Object))
      → (let round : PushedHistory Object = record {
        run_id = run_id;
        pushed = pushed;
        evictions = es;
        worker_error = worker_error;
      } in
          replays round ≡ true → replay_next reasons round ≡ yielded (verdict es))
  unfolding replays replay_next raced
  replay_next-verdict run_id (ok _) (e ∷ es) none p = rw (on_evictions-verdict e es _) refl
  replay_next-verdict run_id (ok _) [] none p = ground (arith, p)
  replay_next-verdict run_id (ok _) es (some _) p = ground (arith, p)
  replay_next-verdict run_id (err _) es worker_error p = ground (arith, p)

  both : (a b : Bool) → (a && b) ≡ true → (a ≡ true) × (b ≡ true)
  both a b p = ground (arith, p)

  next-verdict :
      {Object : Type 0} (r : PushedHistory Object)
      → replays r ≡ true
      → replay_next reasons r ≡ yielded (verdict r.evictions)
  next-verdict r p = replay_next-verdict r.run_id r.pushed r.evictions r.worker_error p

  passed_over :
      {Object : Type 0} (raise_on : Bool) (r : PushedHistory Object)
      (rs : List (PushedHistory Object)) (known : Dict String ReplayFailure)
      → replays r ≡ true
      → verdict r.evictions ≡ none
      → replay_histories reasons raise_on (r ∷ rs) known
        ≡ replay_histories reasons raise_on rs known
  unfolding replay_histories collect_result
  passed_over raise_on r rs known p q = rw (replay_histories, next-verdict r p, q) refl

  stopped_at :
      {Object : Type 0} (r : PushedHistory Object) (rs : List (PushedHistory Object))
      (f : ReplayFailure) (known : Dict String ReplayFailure)
      → replays r ≡ true
      → verdict r.evictions ≡ some f
      → replay_histories reasons true (r ∷ rs) known ≡ raised_failure f
  unfolding replay_histories collect_result
  stopped_at r rs f known p q = rw (replay_histories, next-verdict r p, q) refl

  noted :
      {Object : Type 0} (r : PushedHistory Object) (rs : List (PushedHistory Object))
      (f : ReplayFailure) (known : Dict String ReplayFailure)
      → replays r ≡ true
      → verdict r.evictions ≡ some f
      → replay_histories reasons false (r ∷ rs) known
        ≡ replay_histories reasons false rs (put known r.run_id f)
  unfolding replay_histories collect_result
  noted r rs f known p q = rw (replay_histories, next-verdict r p, q) refl

  raises_first :
      {Object : Type 0} (rounds : List (PushedHistory Object)) (known : Dict String ReplayFailure)
      → all_replay rounds ≡ true
      → replay_histories reasons true rounds known
        ≡ elim (first_failure rounds) [ some f ↦ raised_failure f | none ↦ yielded known ]
  unfolding replay_histories first_failure all_replay
  raises_first [] known p = refl
  raises_first (r ∷ rs) known p =
      let (now, later) = both (replays r) (all_replay rs) p in
      elim (Option-cases (verdict r.evictions)) [
        | inl q ↦
            passed_over true r rs known now q ∙ rw (first_failure, q) (raises_first rs known later)
        | inr (f, q) ↦ stopped_at r rs f known now q ∙ rw (first_failure, q) refl
      ]

  collects_last :
      {Object : Type 0} (rounds : List (PushedHistory Object)) (known : Dict String ReplayFailure)
      → all_replay rounds ≡ true
      → (failures : Dict String ReplayFailure) × (replay_histories reasons false rounds known
          ≡ yielded failures)
        × ((run_id : String) → get failures run_id ≡ last_failure run_id rounds (get known run_id))
  unfolding replay_histories last_failure all_replay
  collects_last [] known p = (known, refl, λ _. refl)
  collects_last (r ∷ rs) known p =
      let (now, later) = both (replays r) (all_replay rs) p in
      elim (Option-cases (verdict r.evictions)) [
        | inl q ↦
            let (failures, ends, found) = collects_last rs known later in
            (
              failures,
              passed_over false r rs known now q ∙ ends,
              λ run_id. rw (last_failure, q) (found run_id),
            )
        | inr (f, q) ↦
            let (failures, ends, found) = collects_last rs (put known r.run_id f) later in
            (
              failures,
              noted r rs f known now q ∙ ends,
              λ run_id.
                  rw (last_failure, q)
                    (found run_id ∙ ap (last_failure run_id rs) (get-put known r.run_id run_id f)),
            )
      ]

  -- For histories that are pushed, while the worker does not fail and each is ended by an eviction:
  -- with raise_on_replay_failure the first failure is raised, and without failures the result is
  -- empty. Without it every history is replayed, and the result holds for each run the last failure
  -- among its histories. Whether a history failed is said by its last eviction.
  pub failures_are_reported :
      {Object : Type 0} (rounds : List (PushedHistory Object))
      → all_replay rounds ≡ true
      → (replay_workflows reasons true rounds
          ≡ elim (first_failure rounds) [ some f ↦ raised_failure f | none ↦ yielded [] ])
        × ((failures : Dict String ReplayFailure) × (replay_workflows reasons false rounds
              ≡ yielded failures)
            × ((run_id : String) → get failures run_id ≡ last_failure run_id rounds none))
  unfolding replay_workflows get
  failures_are_reported rounds p = (raises_first rounds [] p, collects_last rounds [] p)
