-- ===== src/Worker/UpdateProtocol.antt =====
-- temporalio_trio/worker/_single_thread_worker.py: the responses that an update gets.
use python_trio_sdk.Common.{
  ◌≡◌, refl, sym, ◌∙◌, ap, Option, none, some, String, List, [], ◌∷◌, ◌++◌, if◌then◌else◌, name_eq,
  string_eq, ◌==◌, eq_iff, inl, inr, Option-cases, Bool-cases, arith,
}
use mathlib.Core.List.{append-nil, append_assoc}
use python_trio_sdk.Common.Dict
use python_trio_sdk.Host.{Host, Exception, is_exception, ok}
use python_trio_sdk.Activation.{UpdateWorkflowJob, Command, UpdateResponseCommand, update_response}
use python_trio_sdk.Runtime.State.{WorkflowRuntime, Nursery, update_handler}
use python_trio_sdk.Worker.Code.{Call, returned, coroutine, failed, Caller}
use python_trio_sdk.Worker.Updates.{
  apply_update_async, accept_update, after_handler, validate, validated, lookup, accept, reject,
  complete, answer, handle_update_validator, no_update_handler,
}

-- The responses to an update, by its protocol instance.
pub responses :
    {Object : Type 0} → String → List (Command Object) → List (UpdateResponseCommand Object)
responses id [] = []
responses id (update_response r ∷ cs) =
    let rest = responses id cs in if r.protocol_instance_id == id then r ∷ rest else rest
responses id (_ ∷ cs) = responses id cs

responses-append :
    {Object : Type 0}
    → (id : String) (cs : List (Command Object)) (r : UpdateResponseCommand Object)
    → r.protocol_instance_id ≡ id
    → responses id (cs ++ update_response r ∷ []) ≡ responses id cs ++ r ∷ []
unfolding responses
responses-append id [] r p = ground (arith, p, eq_iff r.protocol_instance_id id)
responses-append id (update_response x ∷ cs) r p = ground (arith, responses-append id cs r p)
responses-append id (_ ∷ cs) r p = responses-append id cs r p

-- What follows the acceptance: the handler's result, its failure, or its coroutine as the last task of
-- the nursery.
pub data Ending {h : Host} (job : UpdateWorkflowJob h.Object) (rt : WorkflowRuntime h)
    : List (UpdateResponseCommand h.Object) → Type 0 where
  completed : (v : Option h.Object) → Ending job rt (complete job v ∷ [])
  failed_later : (e : Exception h.Object) → Ending job rt (reject job e ∷ [])
  running :
      (c : h.Object) (before : Nursery h.Object)
      → rt.nursery ≡ some (record before { tasks = before.tasks ++ update_handler c job ∷ [] })
      → Ending job rt []

pub data Protocol {h : Host} (job : UpdateWorkflowJob h.Object) (rt : WorkflowRuntime h)
    : List (UpdateResponseCommand h.Object) → Type 0 where
  refused : (e : Exception h.Object) → Protocol job rt (reject job e ∷ [])
  accepted_then :
      {rs : List (UpdateResponseCommand h.Object)}
      → Ending job rt rs
      → Protocol job rt (accept job ∷ rs)

abbrev pub Responded :
    {h : Host}
    → UpdateWorkflowJob h.Object
    → WorkflowRuntime h
    → WorkflowRuntime h
    → List (UpdateResponseCommand h.Object)
    → Type 0
Responded job rt rt' rs =
    responses job.protocol_instance_id rt'.commands
    ≡ responses job.protocol_instance_id rt.commands ++ rs

module _ {h : Host} where
  after_handler-Ending :
      (job : UpdateWorkflowJob h.Object) (c : Call h.Object) (rt : WorkflowRuntime h)
      → (after_handler job c rt).0 ≡ ok tt
      → (rs : List (UpdateResponseCommand h.Object)) × Ending job (after_handler job c rt).1 rs
        × Responded job rt (after_handler job c rt).1 rs
  unfolding after_handler
  after_handler-Ending job (returned v) rt p = (
    _,
    completed (some v),
    responses-append job.protocol_instance_id rt.commands (complete job (some v)) refl,
  )
  after_handler-Ending job (failed e) rt p = elim (Bool-cases (is_exception e)) [
    | inl q ↦
        rw (q, after_handler)
          (
            _,
            failed_later e,
            responses-append job.protocol_instance_id rt.commands (reject job e) refl,
          )
    | inr q ↦ absurd (ground (arith, p, q))
  ]
  after_handler-Ending job (coroutine c) rt p = elim (Option-cases rt.nursery) [
    | inl q ↦
        rw (q, after_handler)
          (
            _,
            completed none,
            responses-append job.protocol_instance_id rt.commands (complete job none) refl,
          )
    | inr (nursery, q) ↦
        rw (q, after_handler)
          (
            _,
            running c nursery refl,
            sym (append-nil (responses job.protocol_instance_id rt.commands)),
          )
  ]

module _ {h : Host} (call : Caller h) where
  -- User code has no means to send an update response.
  abbrev pub IsQuiet : Type 0
  IsQuiet =
      (id : String) (f : h.Object) (args : List h.Object) (rt : WorkflowRuntime h)
      → responses id (call f args rt).1.commands ≡ responses id rt.commands

  accept_update-Protocol :
      (f : h.Object) (job : UpdateWorkflowJob h.Object) (rt : WorkflowRuntime h)
      → IsQuiet
      → (accept_update call f job rt).0 ≡ ok tt
      → (rs : List (UpdateResponseCommand h.Object)) × Protocol job
          (accept_update call f job rt).1
          rs
        × Responded job rt (accept_update call f job rt).1 rs
  unfolding accept_update
  accept_update-Protocol f job rt quiet p =
      let tracked = record (answer (accept job) rt) {
        in_progress_updates = Dict.put rt.in_progress_updates job.id job.name;
      } in
      let ran = call f job.args tracked in
      let ended = after_handler-Ending job ran.0 ran.1 p in
      (
        accept job ∷ ended.0,
        accepted_then ended.1,
        ended.2
            ∙ ap (λ xs. xs ++ ended.0)
                (quiet job.protocol_instance_id f job.args tracked
                  ∙ responses-append job.protocol_instance_id rt.commands (accept job) refl)
            ∙ append_assoc (responses job.protocol_instance_id rt.commands) (accept job ∷ [])
                ended.0,
      )

  handle_update_validator-quiet :
      (name : String) (args : List h.Object) (rt : WorkflowRuntime h) (id : String)
      → IsQuiet
      → responses id (handle_update_validator call name args rt).1.commands
        ≡ responses id rt.commands
  unfolding handle_update_validator
  handle_update_validator-quiet name args rt id quiet =
      elim (Option-cases (lookup rt.update_validators name)) [
        | inl e ↦ rw (e, handle_update_validator) refl
        | inr (f, e) ↦ rw (e, handle_update_validator) (quiet id f args rt)
      ]

  validate-quiet :
      (job : UpdateWorkflowJob h.Object) (rt : WorkflowRuntime h) (id : String)
      → IsQuiet
      → responses id (validate call job rt).1.commands ≡ responses id rt.commands
  unfolding validate
  validate-quiet job rt id quiet = elim (Bool-cases job.run_validator) [
    | inl e ↦ rw (e, validate) (handle_update_validator-quiet job.name job.args rt id quiet)
    | inr e ↦ rw (e, validate) refl
  ]

  validated-Protocol :
      (f : h.Object) (job : UpdateWorkflowJob h.Object) (e : Option (Exception h.Object))
      (rt : WorkflowRuntime h)
      → IsQuiet
      → (validated call f job e rt).0 ≡ ok tt
      → (rs : List (UpdateResponseCommand h.Object)) × Protocol job (validated call f job e rt).1 rs
        × Responded job rt (validated call f job e rt).1 rs
  unfolding validated
  validated-Protocol f job none rt quiet p = accept_update-Protocol f job rt quiet p
  validated-Protocol f job (some e) rt quiet p = elim (Bool-cases (is_exception e)) [
    | inl q ↦
        rw (q, validated)
          (_, refused e, responses-append job.protocol_instance_id rt.commands (reject job e) refl)
    | inr q ↦ absurd (ground (arith, p, q))
  ]

  pub apply_update_async-found :
      (f : h.Object) (job : UpdateWorkflowJob h.Object) (rt : WorkflowRuntime h)
      → lookup rt.update_handlers job.name ≡ some f
      → apply_update_async call job rt
        ≡ validated call f job (validate call job rt).0 (validate call job rt).1
  unfolding apply_update_async
  apply_update_async-found f job rt e = rw (e, apply_update_async) refl

  -- An update whose processing raises nothing, of user code that sends no responses itself, gets
  -- exactly one of these sequences of responses, behind those that it had: a rejection alone; an
  -- acceptance and a completion; an acceptance and a rejection; or an acceptance alone, and then the
  -- handler's coroutine is the last task of the nursery.
  pub update_follows-Protocol :
      (job : UpdateWorkflowJob h.Object) (rt : WorkflowRuntime h)
      → IsQuiet
      → (apply_update_async call job rt).0 ≡ ok tt
      → (rs : List (UpdateResponseCommand h.Object)) × Protocol job
          (apply_update_async call job rt).1
          rs
        × Responded job rt (apply_update_async call job rt).1 rs
  unfolding apply_update_async
  update_follows-Protocol job rt quiet p =
      elim (Option-cases (lookup rt.update_handlers job.name)) [
        | inl e ↦
            rw (e, apply_update_async)
              (
                _,
                refused (no_update_handler job.name),
                responses-append job.protocol_instance_id rt.commands
                    (reject job (no_update_handler job.name)) refl,
              )
        | inr (f, e) ↦
            let ended =
              validated-Protocol f job (validate call job rt).0 (validate call job rt).1 quiet
                (sym (ap (λ r. r.0) (apply_update_async-found f job rt e)) ∙ p) in
            rw (apply_update_async-found f job rt e) (
              ended.0,
              ended.1,
              ended.2
                  ∙ ap (λ xs. xs ++ ended.0) (validate-quiet job rt job.protocol_instance_id quiet),
            )
      ]
