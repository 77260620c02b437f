-- ===== src/Worker/Polling.antt =====
-- temporalio_trio/worker/_single_thread_worker.py: what the poll loop does with each round.
use python_trio_sdk.Common.{◌≡◌, true, false, String, List, [], ◌∷◌, ◌++◌, ◌⊎◌}
use python_trio_sdk.Host.{Host, Exception, is_exception, Result, ok, err}
use python_trio_sdk.Activation.{WorkflowActivation}
use python_trio_sdk.Bridge.Converters.{◌>>=◌}
use python_trio_sdk.Bridge.Messages.{BridgeActivation}
use python_trio_sdk.Bridge.Commands.{BridgeCompletion}
use python_trio_sdk.Worker.Code.{Code, Settings}
use python_trio_sdk.Worker.Dispatch.{Worker, extract_run_id}
use python_trio_sdk.Worker.Poll.{
  Surroundings, Round, Poller, Loop, polling, stopped, raised, serve, parse_activation,
}

module _ {h : Host} (s : Surroundings h) where
  -- An exception leaves the sent completions, and otherwise there is one more, for the run.
  Sent : String → Poller h → Result h.Object (Unit {0}) × Poller h → Type 0
  Sent run_id p r =
      ((e : Exception h.Object) × (r ≡ (err e, p)))
      ⊎ ((m : BridgeCompletion h.Object) × (m.run_id ≡ run_id)
          × (r ≡ (ok tt, record p { sent = p.sent ++ m ∷ [] })))

module _ {h : Host} (code : Code h) (settings : Settings) (s : Surroundings h) where
  -- A round raises, and nothing is sent; or it sends one completion, for the run of its activation.
  Served :
      (fallback : String)
      → Result h.Object (BridgeActivation h.Object)
      → Poller h
      → Result h.Object (Unit {0}) × Poller h
      → Type 0
  Served fallback polled p r =
      ((e : Exception h.Object) × (w : Worker h) × (r ≡ (err e, record p { worker = w })))
      ⊎ ((act : WorkflowActivation h.Object) × (run_id : String) × (m : BridgeCompletion h.Object)
          × (w : Worker h) × ((polled >>= parse_activation s.converters s.no_backoff) ≡ ok act)
          × (extract_run_id fallback act ≡ ok run_id)
          × (m.run_id ≡ run_id)
          × (r ≡ (ok tt, record { worker = w; sent = p.sent ++ m ∷ [] })))

  -- What the loop may do, round by round.
  pub data Polls : List (Round h.Object) → Poller h → Loop h.Object → Poller h → Type 0 where
    more : {p : Poller h} → Polls [] p polling p
    shut_down :
        {round : Round h.Object} {rounds : List (Round h.Object)} {p : Poller h}
        → round.shutdown_set ≡ true
        → Polls (round ∷ rounds) p stopped p
    -- one completion, for the run of the activation
    answered :
        {round : Round h.Object} {rounds : List (Round h.Object)} {p q : Poller h}
        {l : Loop h.Object} (act : WorkflowActivation h.Object) (run_id : String)
        (m : BridgeCompletion h.Object) (w : Worker h)
        → (round.polled >>= parse_activation s.converters s.no_backoff) ≡ ok act
        → extract_run_id round.fallback act ≡ ok run_id
        → m.run_id ≡ run_id
        → Polls rounds (record { worker = w; sent = p.sent ++ m ∷ [] }) l q
        → Polls (round ∷ rounds) p l q
    -- no completion: the poll, the conversion, the dispatch or the bridge raised
    skipped :
        {round : Round h.Object} {rounds : List (Round h.Object)} {p q : Poller h}
        {l : Loop h.Object} (e : Exception h.Object) (w : Worker h)
        → (serve code settings s round.fallback round.polled p).0 ≡ err e
        → is_exception e ≡ true
        → s.is_poll_shutdown e ≡ false
        → Polls rounds (record p { worker = w }) l q
        → Polls (round ∷ rounds) p l q
    poll_shut_down :
        {round : Round h.Object} {rounds : List (Round h.Object)} {p : Poller h}
        (e : Exception h.Object) (w : Worker h)
        → (serve code settings s round.fallback round.polled p).0 ≡ err e
        → s.is_poll_shutdown e ≡ true
        → Polls (round ∷ rounds) p stopped (record p { worker = w })
    -- as trio.Cancelled, also where the worker has crashed
    not_caught :
        {round : Round h.Object} {rounds : List (Round h.Object)} {p : Poller h}
        (e : Exception h.Object) (w : Worker h)
        → (serve code settings s round.fallback round.polled p).0 ≡ err e
        → is_exception e ≡ false
        → Polls (round ∷ rounds) p (raised e) (record p { worker = w })
