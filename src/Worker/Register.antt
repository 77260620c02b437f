-- ===== src/Worker/Register.antt =====
-- temporalio_trio/worker/_single_thread_worker.py: `_register_handlers`, and the choice of the
-- workflow definition in `_run_workflow`.
use python_trio_sdk.Common.{
  Option, none, some, String, [], ◌∷◌, name_eq, ◌≡◌, refl, ◌∙◌, arith, option_eq_iff,
}
use python_trio_sdk.Common.Dict
use python_trio_sdk.Common.Dict.{Dict, get-put}
use python_trio_sdk.Host.{Host}
use python_trio_sdk.Runtime.State.{WorkflowRuntime}
use python_trio_sdk.Runtime.Handlers.{register_update_handler}

-- A workflow definition by its handlers, bound to the workflow object. None is the name of a dynamic
-- handler; an update has a validator or none.
pub record Definition (Object : Type 0) : Type 0 where
  pub signals : Dict (Option String) Object
  pub queries : Dict (Option String) Object
  pub updates : Dict (Option String) (Object × Option Object)

-- `self._workflows.get(workflow_type)`, then the dynamic one under None
unfoldable pub find_definition :
    {D : Type 0} → Dict (Option String) D → (workflow_type : String) → Option D
find_definition workflows workflow_type = elim (Dict.get workflows (some workflow_type)) [
  | none ↦ Dict.get workflows none
  | some d ↦ some d
]

-- The loop over `defn.signals` or `defn.queries`.
unfoldable pub register_named :
    {Object : Type 0}
    → (defined handlers : Dict (Option String) Object) → Dict (Option String) Object
register_named [] handlers = handlers
register_named ((none, f) ∷ defined) handlers = register_named defined handlers
register_named ((some name, f) ∷ defined) handlers =
    register_named defined (Dict.put handlers (some name) f)

register_named-none :
    {Object : Type 0}
    → (defined handlers : Dict (Option String) Object)
    → Dict.get (register_named defined handlers) none ≡ Dict.get handlers none
unfolding register_named
register_named-none [] handlers = refl
register_named-none ((none, f) ∷ defined) handlers = register_named-none defined handlers
register_named-none ((some name, f) ∷ defined) handlers =
    register_named-none defined (Dict.put handlers (some name) f)
    ∙ ground (arith, get-put handlers (some name) none f, option_eq_iff (some name) none)

module _ {h : Host} where
  unfoldable pub register_updates :
      Dict (Option String) (h.Object × Option h.Object) → WorkflowRuntime h → WorkflowRuntime h
  unfolding register_update_handler
  register_updates [] rt = rt
  register_updates ((name, (handler, validator)) ∷ updates) rt =
      register_updates updates (register_update_handler name handler validator rt)

  unfoldable pub register_handlers : Definition h.Object → WorkflowRuntime h → WorkflowRuntime h
  unfolding register_named register_updates
  register_handlers defn rt = register_updates defn.updates (record rt {
    signal_handlers = register_named defn.signals rt.signal_handlers;
    query_handlers = register_named defn.queries rt.query_handlers;
  })

  register_updates-others :
      (updates : Dict (Option String) (h.Object × Option h.Object)) (rt : WorkflowRuntime h)
      → ((register_updates updates rt).signal_handlers ≡ rt.signal_handlers)
        × ((register_updates updates rt).query_handlers ≡ rt.query_handlers)
  unfolding register_updates register_update_handler
  register_updates-others [] rt = (refl, refl)
  register_updates-others ((name, (handler, validator)) ∷ updates) rt =
      register_updates-others updates (register_update_handler name handler validator rt)

  -- Whatever handlers a workflow defines, also dynamic ones under None: the registration leaves the
  -- dynamic signal handler and the dynamic query handler of the runtime as they are.
  dynamic_handlers_are_skipped :
      (defn : Definition h.Object) (rt : WorkflowRuntime h)
      → (Dict.get (register_handlers defn rt).signal_handlers none
          ≡ Dict.get rt.signal_handlers none)
        × (Dict.get (register_handlers defn rt).query_handlers none
            ≡ Dict.get rt.query_handlers none)
  unfolding register_handlers
  dynamic_handlers_are_skipped defn rt =
      let named = record rt {
        signal_handlers = register_named defn.signals rt.signal_handlers;
        query_handlers = register_named defn.queries rt.query_handlers;
      } in
      let others = register_updates-others defn.updates named in
      (
        rw others.0 (register_named-none defn.signals rt.signal_handlers),
        rw others.1 (register_named-none defn.queries rt.query_handlers),
      )
