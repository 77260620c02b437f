-- ===== src/Bridge/JobOrder.antt =====
-- temporalio_trio/worker/_bridge_types.py: what `bridge_to_poc_activation` makes of the jobs, against
-- a description as a relation.
use python_trio_sdk.Common.{
  ℕ, ◌≡◌, refl, subst, ap, sym, ◌∙◌, String, Option, none, some, List, [], ◌∷◌, ◌++◌, is_some, ◌⊎◌,
  inl, inr, ℕ_eq,
}
use python_trio_sdk.Host.{Exception, Result, ok, err}
use python_trio_sdk.Activation.{DoBackoff, WorkflowJob, WorkflowActivation}
use python_trio_sdk.Bridge.Converters.{Converters, ◌>>=◌}
use python_trio_sdk.Bridge.Messages.{
  BridgeActivation, ActivationJob, initialize_workflow, signal_workflow, query_workflow,
  resolve_child_workflow_execution_start, resolve_child_workflow_execution,
  resolve_signal_external_workflow, resolve_request_cancel_external_workflow, do_update,
  remove_from_cache, other,
}
use python_trio_sdk.Bridge.Activations.{
  bridge_to_poc_activation, collect_jobs, convert_job, append, note_eviction, Collected, reason_of,
  or_none, packed,
}
use mathlib.Core.List.{append_assoc, append-nil}

-- The last eviction among the jobs, behind one that was seen before.
unfoldable pub last_eviction :
    {Object : Type 0} → Option (ℕ × String) → List (ActivationJob Object) → Option (ℕ × String)
last_eviction seen [] = seen
last_eviction seen (remove_from_cache reason message ∷ jobs) =
    last_eviction (some (reason, message)) jobs
last_eviction seen (_ ∷ jobs) = last_eviction seen jobs

unfoldable pub evicted_for : Option (ℕ × String) → Option ℕ
unfolding reason_of
evicted_for none = none
evicted_for (some (reason, _)) = reason_of reason

unfoldable pub evicted_with : Option (ℕ × String) → Option String
unfolding or_none
evicted_with none = none
evicted_with (some (_, message)) = or_none message

module _ {Object : Type 0} (c : Converters Object) (no_backoff : DoBackoff Object) where
  -- The jobs of the worker stand for the jobs of the bridge, one for one and in order, the
  -- evictions left out.
  pub data Converted : List (ActivationJob Object) → List (WorkflowJob Object) → Type 0 where
    nothing : Converted [] []
    one :
        {job : ActivationJob Object} {jobs : List (ActivationJob Object)} {to : WorkflowJob Object}
        {tos : List (WorkflowJob Object)}
        → convert_job c no_backoff job ≡ ok (some to)
        → Converted jobs tos
        → Converted (job ∷ jobs) (to ∷ tos)
    eviction :
        {reason : ℕ} {message : String} {jobs : List (ActivationJob Object)}
        {tos : List (WorkflowJob Object)}
        → Converted jobs tos
        → Converted (remove_from_cache reason message ∷ jobs) tos

  -- A job cannot be converted, and all before it can.
  pub data Fails : List (ActivationJob Object) → Exception Object → Type 0 where
    here :
        {job : ActivationJob Object} {jobs : List (ActivationJob Object)} {e : Exception Object}
        → convert_job c no_backoff job ≡ err e
        → Fails (job ∷ jobs) e
    later :
        {job : ActivationJob Object} {jobs : List (ActivationJob Object)} {e : Exception Object}
        (to : Option (WorkflowJob Object))
        → convert_job c no_backoff job ≡ ok to
        → Fails jobs e
        → Fails (job ∷ jobs) e

  -- What is collected before the jobs `pre` and with the last eviction `seen`.
  abbrev collected : List (WorkflowJob Object) → Option (ℕ × String) → Collected Object
  collected pre seen = record {
    poc_jobs = pre;
    is_eviction = is_some seen;
    eviction_reason = evicted_for seen;
    eviction_message = evicted_with seen;
  }

  -- A job that is no eviction.
  record IsOrdinary (job : ActivationJob Object) : Type 0 where
    not_noted : (acc : Collected Object) → note_eviction job acc ≡ acc
    not_last :
        (seen : Option (ℕ × String)) (jobs : List (ActivationJob Object))
        → last_eviction seen (job ∷ jobs) ≡ last_eviction seen jobs
    outcome :
        ((to : WorkflowJob Object) × (convert_job c no_backoff job ≡ ok (some to)))
        ⊎ ((e : Exception Object) × (convert_job c no_backoff job ≡ err e))

  bound-outcome :
      {A B : Type 0} (m : Result Object A) (f : A → B)
      → ((b : B) × ((m >>= λ a. ok (some (f a))) ≡ ok (some b)))
        ⊎ ((e : Exception Object) × ((m >>= λ a. ok (some (f a))) ≡ err e))
  bound-outcome (ok a) f = inl (f a, refl)
  bound-outcome (err e) f = inr (e, refl)

  job-cases :
      (job : ActivationJob Object)
      → ((reason : ℕ) × (message : String) × (job ≡ remove_from_cache reason message))
        ⊎ IsOrdinary job
  unfolding convert_job note_eviction last_eviction
  job-cases (remove_from_cache reason message) = inl (reason, message, refl)
  job-cases (initialize_workflow _) =
      inr record { not_noted = λ _. refl; not_last = λ _ _. refl; outcome = bound-outcome _ _ }
  job-cases (signal_workflow _) =
      inr record { not_noted = λ _. refl; not_last = λ _ _. refl; outcome = bound-outcome _ _ }
  job-cases (query_workflow _) =
      inr record { not_noted = λ _. refl; not_last = λ _ _. refl; outcome = bound-outcome _ _ }
  job-cases (resolve_child_workflow_execution_start _ _) =
      inr record { not_noted = λ _. refl; not_last = λ _ _. refl; outcome = bound-outcome _ _ }
  job-cases (resolve_child_workflow_execution _ _) =
      inr record { not_noted = λ _. refl; not_last = λ _ _. refl; outcome = bound-outcome _ _ }
  job-cases (resolve_signal_external_workflow _ _) =
      inr record { not_noted = λ _. refl; not_last = λ _ _. refl; outcome = bound-outcome _ _ }
  job-cases (resolve_request_cancel_external_workflow _ _) =
      inr record { not_noted = λ _. refl; not_last = λ _ _. refl; outcome = bound-outcome _ _ }
  job-cases (do_update _) =
      inr record { not_noted = λ _. refl; not_last = λ _ _. refl; outcome = bound-outcome _ _ }
  job-cases (other _) =
      inr record { not_noted = λ _. refl; not_last = λ _ _. refl; outcome = inr (_, refl) }
  job-cases _ =
      inr record { not_noted = λ _. refl; not_last = λ _ _. refl; outcome = inl (_, refl) }

  -- What the loop gives, from a state in the middle.
  Collects : List (ActivationJob Object) → List (WorkflowJob Object) → Option (ℕ × String) → Type 0
  Collects jobs pre seen =
      ((tos : List (WorkflowJob Object)) × Converted jobs tos
        × (collect_jobs c no_backoff jobs (collected pre seen)
            ≡ ok (collected (pre ++ tos) (last_eviction seen jobs))))
      ⊎ ((e : Exception Object) × Fails jobs e
          × (collect_jobs c no_backoff jobs (collected pre seen) ≡ err e))

  collect-eviction :
      (reason : ℕ) (message : String) (jobs : List (ActivationJob Object))
      (pre : List (WorkflowJob Object)) (seen : Option (ℕ × String))
      → Collects jobs pre (some (reason, message))
      → Collects (remove_from_cache reason message ∷ jobs) pre seen
  unfolding collect_jobs Collects last_eviction append note_eviction convert_job evicted_for
      evicted_with
  collect-eviction reason message jobs pre seen (inl (tos, made, p)) = inl (tos, eviction made, p)
  collect-eviction reason message jobs pre seen (inr (e, fails, p)) =
      inr (e, later none refl fails, p)

  collect-step :
      (job : ActivationJob Object) (jobs : List (ActivationJob Object))
      (pre : List (WorkflowJob Object)) (seen : Option (ℕ × String)) (to : WorkflowJob Object)
      → IsOrdinary job
      → convert_job c no_backoff job ≡ ok (some to)
      → collect_jobs c no_backoff (job ∷ jobs) (collected pre seen)
        ≡ collect_jobs c no_backoff jobs (collected (pre ++ to ∷ []) seen)
  unfolding collect_jobs append
  collect-step job jobs pre seen to ordinary p = rw (p, ordinary.not_noted (collected pre seen))

  collect-ordinary :
      (job : ActivationJob Object) (jobs : List (ActivationJob Object))
      (pre : List (WorkflowJob Object)) (seen : Option (ℕ × String))
      → IsOrdinary job
      → ((to : WorkflowJob Object) → Collects jobs (pre ++ to ∷ []) seen)
      → Collects (job ∷ jobs) pre seen
  unfolding collect_jobs Collects
  collect-ordinary job jobs pre seen ordinary rest = elim ordinary.outcome [
    | inr (e, p) ↦ inr (e, here p, rw p refl)
    | inl (to, p) ↦ elim (rest to) [
      | inr (e, fails, q) ↦
          inr (e, later (some to) p fails, collect-step job jobs pre seen to ordinary p ∙ q)
      | inl (tos, made, q) ↦ inl (
        to ∷ tos,
        one p made,
        collect-step job jobs pre seen to ordinary p
            ∙ (q
                ∙ ap ok (
                    ap (λ js. collected js (last_eviction seen jobs))
                      (append_assoc pre (to ∷ []) tos)
                    ∙ ap (collected (pre ++ to ∷ tos)) (sym (ordinary.not_last seen jobs)))),
      )
    ]
  ]

  collects :
      (jobs : List (ActivationJob Object)) (pre : List (WorkflowJob Object))
      (seen : Option (ℕ × String))
      → Collects jobs pre seen
  unfolding collect_jobs Collects last_eviction
  collects [] pre seen = inl ([], nothing, rw (append-nil pre) refl)
  collects (job ∷ jobs) pre seen = elim (job-cases job) [
    | inl (reason, message, p) ↦
        subst (λ j. Collects (j ∷ jobs) pre seen) (sym p)
          (collect-eviction reason message jobs pre seen
            (collects jobs pre (some (reason, message))))
    | inr ordinary ↦
        collect-ordinary job jobs pre seen ordinary λ to. collects jobs (pre ++ to ∷ []) seen
  ]

  -- The activation of the worker is made of all jobs of the bridge or not at all. Either there is a
  -- first job that cannot be converted, and its exception is raised; or the jobs are the conversions
  -- of the jobs that are no evictions, in their order, the activation is an eviction exactly when
  -- one of the jobs is, and the reason and the message are those of the last eviction, 0 and the
  -- empty text read as None.
  pub activation_conversion_complete :
      (act : BridgeActivation Object)
      → ((poc : WorkflowActivation Object) × (bridge_to_poc_activation c no_backoff act ≡ ok poc)
          × Converted act.jobs poc.jobs
          × (poc.remove_from_cache ≡ is_some (last_eviction none act.jobs))
          × (poc.eviction_reason ≡ evicted_for (last_eviction none act.jobs))
          × (poc.eviction_message ≡ evicted_with (last_eviction none act.jobs))
          × (poc.run_id ≡ act.run_id))
        ⊎ ((e : Exception Object) × (bridge_to_poc_activation c no_backoff act ≡ err e)
            × Fails act.jobs e)
  unfolding bridge_to_poc_activation packed Collects evicted_for evicted_with
  activation_conversion_complete act = elim (collects act.jobs [] none) [
    | inl (tos, made, q) ↦ inl (
      packed act (collected tos (last_eviction none act.jobs)),
      rw q refl,
      made,
      refl,
      refl,
      refl,
      refl,
    )
    | inr (e, fails, q) ↦ inr (e, rw q refl, fails)
  ]
